-- ===== src/Dtest/Scheduler/Served.antt =====
-- dtest/src/scheduler.cpp: pending tasks that a live agent can run, and `resolve_unschedulable`.
use computing_test_plat.Base.{
  ℕ, zero, suc, ◌+◌, ◌<◌, ◌≡◌, ◌≢◌, refl, sym, subst, inl, inr, List, true, false, ◌&&◌, arith, ltb,
  ◌==◌, ==_iff, length, Bool-cases, update-each, any_below, any_below-false, Text, [],
}
use computing_test_plat.Dtest.Types.{Task, AgentInfo, AttemptResult, AttemptStatus, FinalStatus}
use computing_test_plat.Dtest.Scheduler.{
  TaskState, Run, able, worker_agent, loop_head, complete, set_place, set_task, notify_all, settle,
  record_attempt, retire, count_failure, task_at, resolve_unschedulable, resolve_task, resolve_from,
  finish, any_live_capable,
}
use computing_test_plat.Dtest.Scheduler.Cases.{loop_head_cases, resolve_task_cases}

module _ (agents : List AgentInfo) (tasks : List Task) where
  -- The task has a verdict, or runs, or can run somewhere.
  abbrev pub Servable : ℕ → Run → Type 0
  Servable t s =
      (s.st t).done ≡ false → (s.st t).running ≡ false → any_live_capable agents tasks t s ≡ true

  abbrev pub ServedAll : Run → Type 0
  ServedAll s = (t : ℕ) → t < length tasks → Servable t s

  finish-Servable :
      (j t : ℕ) (f : FinalStatus) (msg : Text) (s : Run)
      → (j ≢ t → Servable j s)
      → Servable j (finish t f msg s)
  unfolding finish any_live_capable
  finish-Servable j t f msg s h = elim (Bool-cases (j == t)) [
    | inl same ↦ rw same (λ e. absurd (ground arith))
    | inr other ↦ rw other (h (λ e. absurd (ground arith)))
  ]

  -- One round of `resolve_unschedulable` settles its task.
  resolve_task-Servable : (t : ℕ) (s : Run) → Servable t (resolve_task agents tasks t s)
  unfolding resolve_task
  resolve_task-Servable t s = elim (Bool-cases (s.st t).done) [
    | inl d ↦ rw d (λ e. absurd (let e' : (s.st t).done ≡ false = e in ground arith))
    | inr d ↦ elim (Bool-cases (s.st t).running) [
      | inl r ↦ rw (d, r) (λ _ e. absurd (let e' : (s.st t).running ≡ false = e in ground arith))
      | inr r ↦ elim (Bool-cases (any_live_capable agents tasks t s)) [
        | inl live ↦ rw (d, r, live) (λ _ _. live)
        | inr dead ↦
            rw (d, r, dead)
              (finish-Servable t t FinalStatus.unschedulable _ s (λ ne. absurd (ne refl)))
      ]
    ]
  ]

  resolve_from-Servable :
      (k t : ℕ) (s : Run)
      → ((j : ℕ) → j < t → Servable j s)
      → (j : ℕ) → j < t + k
      → Servable j (resolve_from agents tasks k t s)
  unfolding resolve_from
  resolve_from-Servable zero t s h j lt = h j (omega arith)
  resolve_from-Servable (suc k) t s h j lt =
      resolve_from-Servable k (suc t) (resolve_task agents tasks t s) below j (omega arith)
    where
      below : (i : ℕ) → i < suc t → Servable i (resolve_task agents tasks t s)
      below i le = elim (Bool-cases (i == t)) [
        | inl same ↦
            subst (λ n. Servable n (resolve_task agents tasks t s)) (sym ((==_iff i t).0 same))
              (resolve_task-Servable t s)
        | inr other ↦
            resolve_task_cases agents tasks (Servable i) t s (h i (ground arith))
              λ _ _ _. finish-Servable i t FinalStatus.unschedulable _ s (λ _. h i (ground arith))
      ]

  -- After `resolve_unschedulable` every pending task can run on a live agent.
  pub resolve-ServedAll : (s : Run) → ServedAll (resolve_unschedulable agents tasks s)
  unfolding resolve_unschedulable
  resolve-ServedAll s t h =
      resolve_from-Servable (length tasks) 0 s (λ j lt. absurd (omega arith)) t (omega arith)

  pub loop_head-ServedAll : (w : ℕ) (s : Run) → ServedAll s → ServedAll (loop_head agents tasks w s)
  unfolding set_place notify_all set_task any_live_capable
  loop_head-ServedAll w s h =
      loop_head_cases agents tasks ServedAll w s (λ _. h) (λ _ _ _. h)
        (λ t _ _ _ j hj.
          update-each
            (λ k x.
              k < length tasks
              → x.done ≡ false
              → x.running ≡ false
              → any_below (length agents) (λ a. able agents tasks a k && s.alive a) ≡ true)
            s.st t (record (s.st t) { running = true }) (λ _ _ e. absurd (ground arith))
            (λ k _. h k) j hj)

  pub live_capable :
      (s : Run) (a t : ℕ)
      → a < length agents
      → able agents tasks a t ≡ true
      → s.alive a ≡ true
      → any_live_capable agents tasks t s ≡ true
  unfolding any_live_capable
  live_capable s a t h may live =
      elim (Bool-cases (any_below (length agents) (λ b. able agents tasks b t && s.alive b))) [
        | inl found ↦ found
        | inr missing ↦ let never = any_below-false _ _ a missing h in absurd (ground arith)
      ]

  -- A change of one task that can run somewhere, with the same agents.
  one_task-ServedAll :
      (s : Run) (t : ℕ) (x : TaskState)
      → any_live_capable agents tasks t s ≡ true
      → ServedAll s
      → ServedAll (set_task t x s)
  unfolding set_task any_live_capable
  one_task-ServedAll s t x live h j hj =
      update-each
        (λ k y.
          k < length tasks
          → y.done ≡ false
          → y.running ≡ false
          → any_below (length agents) (λ a. able agents tasks a k && s.alive a) ≡ true)
        s.st t x (λ _ _ _. live) (λ k _. h k) j hj

  count_failure-ServedAll :
      (t : ℕ) (f : FinalStatus) (s : Run)
      → any_live_capable agents tasks t s ≡ true
      → ServedAll s
      → ServedAll (count_failure agents tasks t f s)
  unfolding count_failure
  count_failure-ServedAll t f s live h =
      let h' =
        one_task-ServedAll s t (record (s.st t) { failures = (s.st t).failures + 1 }) live h in
      elim (Bool-cases (ltb (task_at agents tasks t).retries ((s.st t).failures + 1))) [
        | inl over ↦ rw over (λ j hj. finish-Servable j t f [] _ (λ _. h' j hj))
        | inr within ↦ rw within h'
      ]

  settle-ServedAll :
      (status : AttemptStatus) (a t : ℕ) (s : Run)
      → a < length agents
      → able agents tasks a t ≡ true
      → s.alive a ≡ true
      → ServedAll s
      → ServedAll (settle agents tasks a t status s)
  unfolding settle retire
  settle-ServedAll AttemptStatus.passed a t s ha may live h =
      λ j hj. finish-Servable j t FinalStatus.passed [] s (λ _. h j hj)
  settle-ServedAll AttemptStatus.failed a t s ha may live h =
      count_failure-ServedAll t FinalStatus.failed s (live_capable s a t ha may live) h
  settle-ServedAll AttemptStatus.timed_out a t s ha may live h =
      count_failure-ServedAll t FinalStatus.timed_out s (live_capable s a t ha may live) h
  settle-ServedAll AttemptStatus.agent_error a t s ha may live h = rw live (resolve-ServedAll _)

  -- An attempt that ends while its agent is alive leaves every pending task a live agent.
  pub complete-ServedAll :
      (w t : ℕ) (res : AttemptResult) (s : Run)
      → worker_agent agents tasks w < length agents
      → able agents tasks (worker_agent agents tasks w) t ≡ true
      → s.alive (worker_agent agents tasks w) ≡ true
      → ServedAll s
      → ServedAll (complete agents tasks w t res s)
  unfolding complete notify_all record_attempt any_live_capable set_task
  complete-ServedAll w t res s ha may live h = loop_head-ServedAll w _ (
      settle-ServedAll res.status (worker_agent agents tasks w) t _ ha may live
        (one_task-ServedAll s t _ (live_capable s _ t ha may live) h))
