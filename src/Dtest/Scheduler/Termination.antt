-- ===== src/Dtest/Scheduler/Termination.antt =====
-- dtest/src/scheduler.cpp: the number of attempts that a run makes.
use computing_test_plat.Base.{
  ℕ, ◌+◌, ◌≤◌, ◌<◌, ◌≡◌, refl, ◌∙◌, ap, ◌⊎◌, inl, inr, List, false, arith, if◌then◌else◌, length,
  Bool-cases, update_self, sum_below-le, sum_below-congr, sum_below-ones,
}
use computing_test_plat.Dtest.Types.{Task, AgentInfo, AttemptResult, AttemptStatus}
use computing_test_plat.Dtest.Scheduler.{
  Run, Place, Reach, started, fired, ready, waiting, executing, worker_agent, workers, size_mod,
  initial, start, loop_head, complete, notify_all, settle, record_attempt, retire, task_at,
  resolve_unschedulable,
}
use computing_test_plat.Dtest.Scheduler.Cases.{fire_cases}
use computing_test_plat.Dtest.Scheduler.Tasks.{TaskOk}
use computing_test_plat.Dtest.Scheduler.Frames.{resolve-Frame, settle-Settled}
use computing_test_plat.Dtest.Scheduler.Reachable.{Reach-Inv, executing-undone}
use native.Mathlib.Nat.{le_trans}
use computing_test_plat.Dtest.Scheduler.Costs.{
  total_attempts, attempt_bound, cost_of, cost, activity, resolve-cost_of, is_error, settle-cost,
  loop_head-activity, loop_head-cost, active, active-wake,
}

module _ (agents : List AgentInfo) (tasks : List Task) where
  -- The attempts made, those still allowed, and the threads that have not returned.
  potential : Run → ℕ
  potential s = cost agents tasks s + activity agents tasks s.places

  retire-gone : (a : ℕ) (s : Run) → (retire agents tasks a s).alive a ≡ false
  unfolding retire
  retire-gone a s = elim (Bool-cases (s.alive a)) [
    | inr dead ↦ rw dead dead
    | inl live ↦ rw live ((resolve-Frame agents tasks _).alive a ∙ update_self s.alive a false)
  ]

  error-retired :
      (a t : ℕ) (status : AttemptStatus) (s : Run)
      → is_error agents tasks status ≤ (if (settle agents tasks a t status s).alive a then 0 else 1)
  unfolding settle
  error-retired a t AttemptStatus.passed s = omega arith
  error-retired a t AttemptStatus.failed s = omega arith
  error-retired a t AttemptStatus.timed_out s = omega arith
  error-retired a t AttemptStatus.agent_error s = rw (retire-gone a s) (omega arith)

  notify_all-cost : (s : Run) → cost agents tasks (notify_all s) ≡ cost agents tasks s
  unfolding cost notify_all
  notify_all-cost s = refl

  notify_all-alive : (s : Run) (a : ℕ) → (notify_all s).alive a ≡ s.alive a
  unfolding notify_all
  notify_all-alive s a = refl

  notify_all-active : (s : Run) (w : ℕ) → active ((notify_all s).places w) ≡ active (s.places w)
  unfolding notify_all
  notify_all-active s w = active-wake (s.places w)

  activity-congr :
      (p q : ℕ → Place)
      → ((w : ℕ) → active (p w) ≡ active (q w))
      → activity agents tasks p ≡ activity agents tasks q
  unfolding activity
  activity-congr p q same = sum_below-congr _ _ _ (λ w _. same w)

  complete-potential :
      (w t : ℕ) (res : AttemptResult) (s : Run)
      → w < length (workers agents tasks)
      → s.places w ≡ executing t
      → TaskOk agents tasks t (s.st t)
      → (s.st t).done ≡ false
      → potential (complete agents tasks w t res s) ≤ potential s
  unfolding potential complete
  complete-potential w t res s hw here ok undone =
      let spent = settle-cost agents tasks s t a res ok undone in
      let kept = loop_head-cost agents tasks w (notify_all u) in
      let quiet = loop_head-activity agents tasks w (notify_all u) hw (same w ∙ rw here) in
      let gone = error-retired a t res.status (record_attempt agents tasks a t res s) in
      let same_cost = notify_all-cost u in
      let same_activity = activity-congr (notify_all u).places s.places same in
      let same_alive = notify_all-alive u a in
      let quiet' = rw same_alive at quiet in
      omega (arith, spent, kept, quiet', gone, same_cost, same_activity)
    where
      a : ℕ
      a = worker_agent agents tasks w

      u : Run
      u = settle agents tasks a t res.status (record_attempt agents tasks a t res s)

      same : (v : ℕ) → active ((notify_all u).places v) ≡ active (s.places v)
      same v = notify_all-active u v ∙ ap active ((settle-Settled agents tasks a t res s).places v)

  enter-potential :
      (w : ℕ) (s : Run)
      → w < length (workers agents tasks)
      → (s.places w ≡ ready) ⊎ (s.places w ≡ waiting)
      → potential (loop_head agents tasks w s) ≤ potential s
  unfolding potential
  enter-potential w s hw at_head =
      let kept = loop_head-cost agents tasks w s in
      let quiet = loop_head-activity agents tasks w s hw (ground arith) in
      omega (arith, kept, quiet)

  ready-activity : activity agents tasks (λ _. ready) ≡ length (workers agents tasks)
  unfolding activity
  ready-activity = sum_below-ones (length (workers agents tasks)) _ (λ _. refl)

  start-potential : potential (start agents tasks) ≤ attempt_bound agents tasks
  unfolding potential start initial attempt_bound cost
  start-potential =
      let s = initial agents tasks in
      let f = resolve-Frame agents tasks s in
      let lower =
        sum_below-le (length tasks)
          (λ t. cost_of agents tasks t ((resolve_unschedulable agents tasks s).st t))
          (λ t. (task_at agents tasks t).retries + 1)
          (λ t. let le = resolve-cost_of agents tasks s t in omega (arith, le)) in
      let all =
        activity-congr (resolve_unschedulable agents tasks s).places (λ _. ready)
          (λ w. ap active (f.places w)) in
      let threads = ready-activity in omega (arith, lower, all, threads)

  Reach-potential :
      (s : Run)
      → length tasks < size_mod
      → Reach agents tasks s
      → potential s ≤ attempt_bound agents tasks
  Reach-potential s small started = start-potential
  Reach-potential s small (fired {s = p} e r step) =
      le_trans
        (fire_cases agents tasks (λ u. potential u ≤ potential p) e p s step
          (λ w hw at_head. enter-potential w p hw at_head)
          (λ w t res hw here.
            let i = Reach-Inv agents tasks p small r in
            complete-potential w t res p hw here (i.tasks_ok t)
              (executing-undone agents tasks p w t i hw here)))
        (Reach-potential p small r)

  -- In no run do the attempts exceed the sum of the retry budgets, the first attempts and one
  -- attempt for each thread, whatever the attempts return.
  pub total_attempts_bounded :
      (s : Run)
      → length tasks < size_mod
      → Reach agents tasks s
      → total_attempts agents tasks s ≤ attempt_bound agents tasks
  unfolding total_attempts potential cost
  total_attempts_bounded s small r =
      let all = Reach-potential s small r in
      let made =
        sum_below-le (length tasks) (λ t. length (s.st t).attempts)
          (λ t. cost_of agents tasks t (s.st t)) (λ t. omega arith) in
      omega (arith, all, made)
