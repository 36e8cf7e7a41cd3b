-- ===== src/Dtest/Scheduler/Costs.antt =====
-- dtest/src/scheduler.cpp: what a step costs of the retry budgets and of the threads that have not
-- returned.
use computing_test_plat.Base.{
  ℕ, ◌+◌, ◌-◌, ◌≤◌, ◌<◌, ◌≡◌, refl, sym, ◌∙◌, ap, subst, inl, inr, List, [], ◌∷◌, ◌++◌, false,
  arith, ◌==◌, if◌then◌else◌, update, length, length-append, Bool-cases, update-each, update_self,
  update-ne, sum_below, sum_below-le, sum_below-bump, sum_below-update, ==_self,
}
use computing_test_plat.Dtest.Types.{Task, AgentInfo, AttemptResult, AttemptStatus, AttemptRecord}
use computing_test_plat.Dtest.Scheduler.{
  TaskState, Run, Place, ready, waiting, executing, exited, wake, worker_agent, workers, loop_head,
  set_place, set_task, notify_all, settle, record_attempt, retire, task_at, resolve_unschedulable,
  agent_at,
}
use computing_test_plat.Dtest.Scheduler.Cases.{loop_head_cases}
use computing_test_plat.Dtest.Scheduler.Settling.{settle-Each, seen, set_task-Each}
use computing_test_plat.Dtest.Scheduler.Tasks.{TaskOk}
use computing_test_plat.Dtest.Scheduler.Frames.{resolve-Frame}

abbrev pub active : Place → ℕ
active exited = 0
active ready = 1
active waiting = 1
active (executing t) = 1

pub active-wake : (p : Place) → active (wake p) ≡ active p
active-wake exited = refl
active-wake ready = refl
active-wake waiting = refl
active-wake (executing t) = refl

pub active-le-one : (p : Place) → active p ≤ 1
active-le-one exited = omega arith
active-le-one ready = omega arith
active-le-one waiting = omega arith
active-le-one (executing t) = omega arith

module _ (agents : List AgentInfo) (tasks : List Task) where
  -- The attempts made, over all tasks.
  unfoldable pub total_attempts : Run → ℕ
  total_attempts s = sum_below (length tasks) (λ t. length (s.st t).attempts)

  -- The retry budgets, with the first attempts, and a last attempt for each thread.
  unfoldable pub attempt_bound : ℕ
  attempt_bound =
      sum_below (length tasks) (λ t. (task_at agents tasks t).retries + 1)
      + length (workers agents tasks)

  -- The attempts made at a task and those that its budget still allows.
  abbrev pub cost_of : ℕ → TaskState → ℕ
  cost_of t x =
      length x.attempts + (if x.done then 0 else (task_at agents tasks t).retries + 1 - x.failures)

  unfoldable pub cost : Run → ℕ
  cost s = sum_below (length tasks) (λ t. cost_of t (s.st t))

  unfoldable pub activity : (ℕ → Place) → ℕ
  activity places = sum_below (length (workers agents tasks)) (λ w. active (places w))

  pub resolve-cost_of :
      (s : Run) (t : ℕ)
      → cost_of t ((resolve_unschedulable agents tasks s).st t) ≤ cost_of t (s.st t)
  resolve-cost_of s t =
      let f = resolve-Frame agents tasks s in
      let fails = f.failures t in
      let tries = ap length (f.attempts t) in
      let done_stays = f.lasting t in
      elim (Bool-cases (s.st t).done) [
        | inl d ↦ let d' = done_stays d in ground arith
        | inr d ↦ ground arith
      ]

  pub retire-cost_of :
      (s : Run) (a t : ℕ) → cost_of t ((retire agents tasks a s).st t) ≤ cost_of t (s.st t)
  unfolding retire
  retire-cost_of s a t = elim (Bool-cases (s.alive a)) [
    | inr dead ↦ rw dead (omega arith)
    | inl live ↦ rw live (resolve-cost_of _ t)
  ]

  abbrev pub is_error : AttemptStatus → ℕ
  is_error AttemptStatus.agent_error = 1
  is_error _ = 0

  -- What the bookkeeping may add to a task's cost.
  abbrev pub Within : Run → ℕ → AttemptStatus → ℕ → TaskState → Type 0
  Within s t status j y = cost_of j y ≤ cost_of j (s.st j) + (if j == t then is_error status else 0)

  pub settle-Within :
      (s : Run) (t a : ℕ) (res : AttemptResult)
      → TaskOk agents tasks t (s.st t)
      → (s.st t).done ≡ false
      → (j : ℕ)
      → Within s t res.status j
          ((settle agents tasks a t res.status (record_attempt agents tasks a t res s)).st j)
  settle-Within s t a res ok undone =
      settle-Each agents tasks (Within s t res.status) s t (λ j _. omega arith) a res
        (λ e. rw (==_self t, undone) (omega (arith, longer, fits)))
        (λ f which within. rw (==_self t, undone) (omega (arith, longer, within)))
        (λ f which over. rw (==_self t, undone) (omega (arith, longer, fits)))
        (λ e.
          subst
            (λ (k : AttemptStatus).
              (j : ℕ)
              → Within s t k j
                  ((retire agents tasks a (set_task t (seen agents tasks s t a res) s)).st j))
            (sym e) (retired e))
    where
      x : TaskState
      x = s.st t

      r : AttemptRecord
      r = record { agent = (agent_at agents tasks a).address; result = res }

      fits : x.failures ≤ (task_at agents tasks t).retries
      fits = let v = ok.verdict in ground arith

      longer : length (x.attempts ++ r ∷ []) ≡ length x.attempts + 1
      longer = length-append x.attempts (r ∷ [])

      written :
          (j : ℕ)
          → Within s t AttemptStatus.agent_error j
              ((set_task t (seen agents tasks s t a res) s).st j)
      written =
          set_task-Each (Within s t AttemptStatus.agent_error) s t (seen agents tasks s t a res)
            (λ j _. omega arith) (rw (==_self t, undone) (omega (arith, longer)))

      retired :
          res.status ≡ AttemptStatus.agent_error
          → (j : ℕ)
          → Within s t AttemptStatus.agent_error j
              ((retire agents tasks a (set_task t (seen agents tasks s t a res) s)).st j)
      retired e j =
          let le = retire-cost_of (set_task t (seen agents tasks s t a res) s) a j in
          let le' = written j in omega (arith, le, le')

  pub settle-cost :
      (s : Run) (t a : ℕ) (res : AttemptResult)
      → TaskOk agents tasks t (s.st t)
      → (s.st t).done ≡ false
      → cost (settle agents tasks a t res.status (record_attempt agents tasks a t res s))
        ≤ cost s + is_error res.status
  unfolding cost
  settle-cost s t a res ok undone =
      let each = settle-Within s t a res ok undone in
      let here = each t in
      sum_below-bump (length tasks) t (is_error res.status) _ _ (rw (==_self t) at here)
        (λ j ne. let there = each j in ground arith)

  -- A thread that goes to its loop's test stays at most as active, and returns if its agent is gone.
  pub loop_head-activity :
      (w : ℕ) (s : Run)
      → w < length (workers agents tasks)
      → active (s.places w) ≡ 1
      → activity (loop_head agents tasks w s).places
          + (if s.alive (worker_agent agents tasks w) then 0 else 1)
        ≤ activity s.places
  unfolding activity set_place notify_all set_task
  loop_head-activity w s hw awake =
      loop_head_cases agents tasks
        (λ u.
          activity u.places + (if s.alive (worker_agent agents tasks w) then 0 else 1)
          ≤ activity s.places)
        w s
        (λ _.
          let swap = moved (λ v. wake (s.places v)) exited (λ v. active-wake (s.places v)) in
          ground arith)
        (λ _ live _. let swap = moved s.places waiting (λ v. refl) in ground arith)
        (λ t _ live _. let swap = moved s.places (executing t) (λ v. refl) in ground arith)
    where
      moved :
          (q : ℕ → Place) (p : Place)
          → ((v : ℕ) → active (q v) ≡ active (s.places v))
          → activity (update q w p) + 1 ≡ activity s.places + active p
      moved q p same =
          let swap =
            sum_below-update (length (workers agents tasks)) w (λ v. active (update q w p v))
              (λ v. active (s.places v)) hw (λ v ne. ap active (update-ne q w v p ne) ∙ same v) in
          let new = ap active (update_self q w p) in omega (arith, swap, new, awake)

  pub loop_head-cost : (w : ℕ) (s : Run) → cost (loop_head agents tasks w s) ≤ cost s
  unfolding cost set_place notify_all set_task
  loop_head-cost w s =
      loop_head_cases agents tasks (λ u. cost u ≤ cost s) w s (λ _. omega arith)
        (λ _ _ _. omega arith)
        (λ t _ _ _. sum_below-le (length tasks) _ _ (
          update-each (λ j x. cost_of j x ≤ cost_of j (s.st j)) s.st t _ (omega arith)
            (λ j _. omega arith)))
