-- ===== src/Dtest/Scheduler/Accounting.antt =====
-- dtest/src/scheduler.cpp: `remaining_` and the tasks without a verdict.
use computing_test_plat.Base.{
  ℕ, ◌+◌, ◌-◌, ◌<◌, ◌≡◌, refl, sym, ap, ◌∙◌, inl, inr, List, [], Bool, true, false, arith, ltb,
  if◌then◌else◌, update, length, Bool-cases, Text, sum_below, sum_below-update, sum_below-congr,
  le-sum_below, update_self, update-ne, update-each,
}
use computing_test_plat.Dtest.Types.{Task, AgentInfo, AttemptStatus, AttemptResult, FinalStatus}
use computing_test_plat.Dtest.Scheduler.{
  TaskState, Run, agent_at, task_at, finish, set_task, set_place, notify_all, decrement, size_mod,
  resolve_unschedulable, record_attempt, count_failure, retire, settle, loop_head, complete,
  worker_agent, Place, waiting, executing, exited,
}
use computing_test_plat.Dtest.Scheduler.Tasks.{attempted}
use computing_test_plat.Dtest.Scheduler.Cases.{resolve_each, resolve_task_cases, loop_head_cases}

abbrev pub open_flag : TaskState → ℕ
open_flag x = if x.done then 0 else 1

pub decrement-pred : (n : ℕ) → 0 < n → n < size_mod → decrement n ≡ n - 1
unfolding decrement
decrement-pred n p q = omega arith

module _ (agents : List AgentInfo) (tasks : List Task) where
  -- The number of tasks without a verdict.
  unfoldable pub unfinished : Run → ℕ
  unfinished s = sum_below (length tasks) (λ t. open_flag (s.st t))

  pub record Counted (s : Run) : Type 0 where
    pub exact : s.remaining ≡ unfinished s
    pub fits : s.remaining < size_mod

  -- A change of one task that keeps its `done` changes no count.
  pub set_task-Counted :
      (s : Run) (t : ℕ) (x : TaskState)
      → x.done ≡ (s.st t).done
      → Counted s
      → Counted (set_task t x s)
  unfolding set_task unfinished
  set_task-Counted s t x same c = record {
    exact =
        c.exact
        ∙ sum_below-congr (length tasks) _ _ (λ j _. sym (
            update-each (λ k y. open_flag y ≡ open_flag (s.st k)) s.st t x
              (ap (λ (b : Bool). if b then 0 else 1) same) (λ k _. refl) j));
    fits = c.fits;
  }

  pub unfinished-pos :
      (s : Run) (t : ℕ) → t < length tasks → (s.st t).done ≡ false → 0 < unfinished s
  unfolding unfinished
  unfinished-pos s t h e =
      let le = le-sum_below (length tasks) (λ j. open_flag (s.st j)) t h in
      let one : open_flag (s.st t) ≡ 1 = rw e in omega (arith, le, one)

  -- `finish` on an unfinished task: the count falls by one, and does not wrap.
  pub finish-Counted :
      (s : Run) (t : ℕ) (f : FinalStatus) (msg : Text)
      → t < length tasks
      → (s.st t).done ≡ false
      → Counted s
      → Counted (finish t f msg s)
  unfolding finish unfinished
  finish-Counted s t f msg h undone c =
      let x : TaskState = record (s.st t) { done = true; final = f; message = msg } in
      let new = update s.st t x in
      let pos : 0 < s.remaining = rw c.exact (unfinished-pos s t h undone) in
      let dec = decrement-pred s.remaining pos c.fits in
      let one : open_flag (s.st t) ≡ 1 = rw undone in
      let none_left : open_flag (new t) ≡ 0 = rw (update_self s.st t x) in
      let swap =
        sum_below-update (length tasks) t (λ j. open_flag (new j)) (λ j. open_flag (s.st j)) h
          (λ j ne. ap open_flag (update-ne s.st t j x ne)) in
      let exact = c.exact in
      record {
        exact = omega (arith, dec, one, none_left, swap, exact, pos);
        fits = omega (arith, dec, c.fits);
      }

  pub resolve-Counted : (s : Run) → Counted s → Counted (resolve_unschedulable agents tasks s)
  resolve-Counted =
      resolve_each agents tasks Counted λ t s h c.
        resolve_task_cases agents tasks Counted t s c λ d _ _. finish-Counted s t _ _ h d c

  notify_all-Counted : (s : Run) → Counted s → Counted (notify_all s)
  unfolding notify_all unfinished
  notify_all-Counted s c = record { exact = c.exact; fits = c.fits }

  set_place-Counted : (w : ℕ) (p : Place) (s : Run) → Counted s → Counted (set_place w p s)
  unfolding set_place unfinished
  set_place-Counted w p s c = record { exact = c.exact; fits = c.fits }

  pub loop_head-Counted : (w : ℕ) (s : Run) → Counted s → Counted (loop_head agents tasks w s)
  loop_head-Counted w s c =
      loop_head_cases agents tasks Counted w s
        (λ _. set_place-Counted w exited _ (notify_all-Counted s c))
        (λ _ _ _. set_place-Counted w waiting s c)
        (λ t _ _ _.
          set_place-Counted w (executing t) _
            (set_task-Counted s t (record (s.st t) { running = true }) refl c))

  set_task-done :
      (s : Run) (t : ℕ) (x : TaskState) → x.done ≡ false → ((set_task t x s).st t).done ≡ false
  unfolding set_task
  set_task-done s t x d = rw (update_self s.st t x) d

  retire-Counted : (a : ℕ) (s : Run) → Counted s → Counted (retire agents tasks a s)
  unfolding retire unfinished
  retire-Counted a s c = elim (Bool-cases (s.alive a)) [
    | inr dead ↦ rw dead c
    | inl live ↦ rw live (resolve-Counted _ (record { exact = c.exact; fits = c.fits }))
  ]

  count_failure-Counted :
      (t : ℕ) (f : FinalStatus) (s : Run)
      → t < length tasks
      → (s.st t).done ≡ false
      → Counted s
      → Counted (count_failure agents tasks t f s)
  unfolding count_failure
  count_failure-Counted t f s h d c =
      let x : TaskState = record (s.st t) { failures = (s.st t).failures + 1 } in
      let c' = set_task-Counted s t x refl c in
      elim (Bool-cases (ltb (task_at agents tasks t).retries ((s.st t).failures + 1))) [
        | inr within ↦ rw within c'
        | inl over ↦ rw over (finish-Counted (set_task t x s) t f [] h (set_task-done s t x d) c')
      ]

  -- The bookkeeping after an attempt at an unfinished task.
  pub settle-Counted :
      (a t : ℕ) (status : AttemptStatus) (s : Run)
      → t < length tasks
      → (s.st t).done ≡ false
      → Counted s
      → Counted (settle agents tasks a t status s)
  unfolding settle
  settle-Counted a t AttemptStatus.passed s h d c = finish-Counted s t FinalStatus.passed [] h d c
  settle-Counted a t AttemptStatus.failed s h d c =
      count_failure-Counted t FinalStatus.failed s h d c
  settle-Counted a t AttemptStatus.timed_out s h d c =
      count_failure-Counted t FinalStatus.timed_out s h d c
  settle-Counted a t AttemptStatus.agent_error s h d c = retire-Counted a s c

  pub complete-Counted :
      (w t : ℕ) (res : AttemptResult) (s : Run)
      → t < length tasks
      → (s.st t).done ≡ false
      → Counted s
      → Counted (complete agents tasks w t res s)
  unfolding complete record_attempt
  complete-Counted w t res s h d c =
      let x : TaskState = attempted (s.st t) (worker_agent agents tasks w) (record {
        agent = (agent_at agents tasks (worker_agent agents tasks w)).address;
        result = res;
      }) in
      loop_head-Counted w _ (
        notify_all-Counted _ (
          settle-Counted (worker_agent agents tasks w) t res.status (set_task t x s) h
            (set_task-done s t x d) (set_task-Counted s t x refl c)))
