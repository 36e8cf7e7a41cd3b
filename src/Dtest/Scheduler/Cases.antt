-- ===== src/Dtest/Scheduler/Cases.antt =====
-- dtest/src/scheduler.cpp: rules to prove something of each branch of the scheduler's steps.
use computing_test_plat.Base.{
  ℕ, zero, suc, ◌+◌, ◌≤◌, ◌<◌, ◌≡◌, refl, ◌⊎◌, inl, inr, List, none, some, true, false, arith, ltb,
  length, Bool-cases, Option-cases, any_below, first_index-some, first_index-none, subst, ltb→lt,
  [], ap, if◌then◌else◌,
}
use computing_test_plat.Dtest.Types.{Task, AgentInfo, AttemptResult, FinalStatus}
use computing_test_plat.Dtest.Scheduler.{
  TaskState, Run, Place, Event, ready, waiting, executing, exited, resumes, wakes, returns, task_at,
  able, finish, set_task, set_place, notify_all, resolve_task, resolve_from, resolve_unschedulable,
  any_live_capable, unschedulable_message, loop_head, complete, pick, eligible, worker_agent,
  workers, fire, fire_at, thread, count_failure,
}
use mathlib.Core.Option.{some-injective}

module _ (agents : List AgentInfo) (tasks : List Task) where
  -- What `pick` found may be started, by every test of its loop.
  pub pick-some :
      (a t : ℕ) (s : Run)
      → pick agents tasks a s ≡ some t
      → (t < length tasks)
        × ((s.st t).done ≡ false)
        × ((s.st t).running ≡ false)
        × (able agents tasks a t ≡ true)
  unfolding pick eligible
  pick-some a t s e =
      let (h, yes_all) = first_index-some _ _ t e in (h, ground arith, ground arith, ground arith)

  pub pick-none :
      (a t : ℕ) (s : Run)
      → pick agents tasks a s ≡ none
      → t < length tasks
      → eligible agents tasks a s t ≡ false
  unfolding pick
  pick-none a t s e h = first_index-none _ _ t e h

  -- `count_failure` by the task's state.
  pub count_failure_at :
      (t : ℕ) (f : FinalStatus) (s : Run) {x : TaskState}
      → s.st t ≡ x
      → count_failure agents tasks t f s ≡ (
          let s' = set_task t (record x { failures = x.failures + 1 }) s in
          if ltb (task_at agents tasks t).retries (x.failures + 1) then finish t f [] s' else s')
  unfolding count_failure
  count_failure_at t f s e =
      ap
        (λ (x : TaskState).
          let s' = set_task t (record x { failures = x.failures + 1 }) s in
          if ltb (task_at agents tasks t).retries (x.failures + 1) then finish t f [] s' else s')
        e

module _ {ℓ} (agents : List AgentInfo) (tasks : List Task) (P : Run → Type ℓ) where
  pub resolve_task_cases :
      (t : ℕ) (s : Run)
      → P s
      → ((s.st t).done ≡ false
          → (s.st t).running ≡ false
          → any_live_capable agents tasks t s ≡ false
          → P (
              finish t FinalStatus.unschedulable
                (unschedulable_message
                  (any_below (length agents) (λ a. able agents tasks a t))
                  (task_at agents tasks t).needs)
                s))
      → P (resolve_task agents tasks t s)
  unfolding resolve_task
  resolve_task_cases t s keep give_up = elim (Bool-cases (s.st t).done) [
    | inl d ↦ rw d keep
    | inr d ↦ elim (Bool-cases (s.st t).running) [
      | inl r ↦ rw (d, r) keep
      | inr r ↦ elim (Bool-cases (any_live_capable agents tasks t s)) [
        | inl live ↦ rw (d, r, live) keep
        | inr dead ↦ rw (d, r, dead) (give_up d r dead)
      ]
    ]
  ]

  resolve_from_each :
      ((t : ℕ) (s : Run) → t < length tasks → P s → P (resolve_task agents tasks t s))
      → (k t : ℕ) (s : Run) → t + k ≤ length tasks
      → P s
      → P (resolve_from agents tasks k t s)
  unfolding resolve_from
  resolve_from_each keep zero t s h p = p
  resolve_from_each keep (suc k) t s h p =
      resolve_from_each keep k (suc t) _ (omega arith) (keep t s (omega arith) p)

  -- What each round keeps, `resolve_unschedulable` keeps.
  pub resolve_each :
      ((t : ℕ) (s : Run) → t < length tasks → P s → P (resolve_task agents tasks t s))
      → (s : Run) → P s
      → P (resolve_unschedulable agents tasks s)
  unfolding resolve_unschedulable
  resolve_each keep s p = resolve_from_each keep (length tasks) 0 s (omega arith) p

  -- The loop's exit, the wait, and the start of a task.
  pub loop_head_cases :
      (w : ℕ) (s : Run)
      → ((s.remaining ≡ 0) ⊎ (s.alive (worker_agent agents tasks w) ≡ false)
          → P (set_place w exited (notify_all s)))
      → (0 < s.remaining
          → s.alive (worker_agent agents tasks w) ≡ true
          → pick agents tasks (worker_agent agents tasks w) s ≡ none
          → P (set_place w waiting s))
      → ((t : ℕ)
          → 0 < s.remaining
          → s.alive (worker_agent agents tasks w) ≡ true
          → pick agents tasks (worker_agent agents tasks w) s ≡ some t
          → P (set_place w (executing t) (set_task t (record (s.st t) { running = true }) s)))
      → P (loop_head agents tasks w s)
  unfolding loop_head
  loop_head_cases w s exit wait run = elim (Bool-cases (ltb 0 s.remaining)) [
    | inr none_left ↦ rw none_left (exit (inl (ground arith)))
    | inl some_left ↦ elim (Bool-cases (s.alive (worker_agent agents tasks w))) [
      | inr dead ↦ rw (some_left, dead) (exit (inr dead))
      | inl live ↦ elim (Option-cases (pick agents tasks (worker_agent agents tasks w) s)) [
        | inl e ↦ rw (some_left, live, e) (wait (ground arith) live e)
        | inr (t, e) ↦ rw (some_left, live, e) (run t (ground arith) live e)
      ]
    ]
  ]

  fire_at_cases :
      (w : ℕ) (p : Place) (e : Event) (s u : Run)
      → fire_at agents tasks w p e s ≡ some u
      → ((p ≡ ready) ⊎ (p ≡ waiting) → P (loop_head agents tasks w s))
      → ((t v : ℕ) (res : AttemptResult)
          → p ≡ executing t
          → e ≡ returns v res
          → P (complete agents tasks w t res s))
      → P u
  unfolding fire_at
  fire_at_cases w ready (resumes _) s u h enter back =
      subst P (some-injective _ _ h) (enter (inl refl))
  fire_at_cases w waiting (wakes _) s u h enter back =
      subst P (some-injective _ _ h) (enter (inr refl))
  fire_at_cases w (executing t) (returns v res) s u h enter back =
      subst P (some-injective _ _ h) (back t v res refl refl)
  fire_at_cases w _ _ s u h enter back = cc

  -- The events: a thread reaches its loop's test, or comes back from `exec_.run` with a result.
  pub fire_cases_with :
      (e : Event) (s u : Run)
      → fire agents tasks e s ≡ some u
      → ((w : ℕ)
          → w < length (workers agents tasks)
          → (s.places w ≡ ready) ⊎ (s.places w ≡ waiting)
          → P (loop_head agents tasks w s))
      → ((w t v : ℕ) (res : AttemptResult)
          → w < length (workers agents tasks)
          → s.places w ≡ executing t
          → e ≡ returns v res
          → P (complete agents tasks w t res s))
      → P u
  unfolding fire
  fire_cases_with e s u h enter back =
      let w = thread agents tasks e in
      elim (Bool-cases (ltb w (length (workers agents tasks)))) [
        | inr out ↦ absurd (ground arith)
        | inl within ↦
            let inside : w < length (workers agents tasks) = ltb→lt _ _ within in
            fire_at_cases w (s.places w) e s u (rw (within, fire) at h) (λ c. enter w inside c)
              (λ t v res c same. back w t v res inside c same)
      ]

  pub fire_cases :
      (e : Event) (s u : Run)
      → fire agents tasks e s ≡ some u
      → ((w : ℕ)
          → w < length (workers agents tasks)
          → (s.places w ≡ ready) ⊎ (s.places w ≡ waiting)
          → P (loop_head agents tasks w s))
      → ((w t : ℕ) (res : AttemptResult)
          → w < length (workers agents tasks)
          → s.places w ≡ executing t
          → P (complete agents tasks w t res s))
      → P u
  fire_cases e s u h enter back =
      fire_cases_with e s u h enter (λ w t _ res inside here _. back w t res inside here)
