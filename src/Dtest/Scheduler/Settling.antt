-- ===== src/Dtest/Scheduler/Settling.antt =====
-- dtest/src/scheduler.cpp: a rule for the bookkeeping after an attempt, which rewrites the state of
-- one task: what holds of each value that it may write, and of the other tasks, holds after it.
use computing_test_plat.Base.{
  ℕ, ◌+◌, ◌≤◌, ◌<◌, ◌≡◌, ◌≢◌, refl, sym, subst, ◌⊎◌, inl, inr, List, [], true, arith, ltb, ltb→lt,
  update, update-each, update_self, update-ne, Bool-cases, Text,
}
use computing_test_plat.Dtest.Types.{Task, AgentInfo, AttemptStatus, AttemptResult, FinalStatus}
use computing_test_plat.Dtest.Scheduler.{
  TaskState, Run, agent_at, task_at, finish, set_task, record_attempt, count_failure, retire,
  settle,
}
use computing_test_plat.Dtest.Scheduler.Cases.{count_failure_at}
use computing_test_plat.Dtest.Scheduler.Tasks.{attempted}

-- The verdict that a failed attempt may bring.
abbrev pub Fails : FinalStatus → AttemptStatus → Type 0
Fails f status =
    ((f ≡ FinalStatus.failed) × (status ≡ AttemptStatus.failed))
    ⊎ ((f ≡ FinalStatus.timed_out) × (status ≡ AttemptStatus.timed_out))

module _ {ℓ} (P : ℕ → TaskState → Type ℓ) where
  abbrev pub Each : Run → Type ℓ
  Each s = (j : ℕ) → P j (s.st j)

  abbrev pub Others : ℕ → Run → Type ℓ
  Others t s = (j : ℕ) → j ≢ t → P j (s.st j)

  pub set_task-Others : (s : Run) (t : ℕ) (x : TaskState) → Others t s → Others t (set_task t x s)
  unfolding set_task
  set_task-Others s t x rest j ne = subst (P j) (sym (update-ne s.st t j x ne)) (rest j ne)

  pub set_task-Each : (s : Run) (t : ℕ) (x : TaskState) → Others t s → P t x → Each (set_task t x s)
  unfolding set_task
  set_task-Each s t x rest new = update-each P s.st t x new rest

  -- A verdict on top of a first write to the task.
  finish-Each :
      (s : Run) (t : ℕ) (x : TaskState) (f : FinalStatus) (msg : Text)
      → Others t s
      → P t (record x { done = true; final = f; message = msg })
      → Each (finish t f msg (set_task t x s))
  unfolding finish set_task
  finish-Each s t x f msg rest new =
      update-each P (update s.st t x) t _
        (subst (λ y. P t (record y { done = true; final = f; message = msg }))
          (sym (update_self s.st t x)) new)
        (set_task-Others s t x rest)

-- The task's state behind the attempt.
abbrev pub seen : List AgentInfo → List Task → Run → ℕ → ℕ → AttemptResult → TaskState
seen agents tasks s t a res =
    attempted (s.st t) a (record { agent = (agent_at agents tasks a).address; result = res })

module _ {ℓ} (agents : List AgentInfo) (tasks : List Task) (P : ℕ → TaskState → Type ℓ) (s : Run)
    (t : ℕ) (rest : Others P t s) where
  module _ (x : TaskState) (f : FinalStatus) where
    count_failure-Each :
        (x.failures + 1 ≤ (task_at agents tasks t).retries
          → P t (record x { failures = x.failures + 1 }))
        → ((task_at agents tasks t).retries < x.failures + 1
            → P t (record x { failures = x.failures + 1; done = true; final = f; message = [] }))
        → Each P (count_failure agents tasks t f (set_task t x s))
    unfolding set_task
    count_failure-Each retry fail =
        let z : TaskState = record x { failures = x.failures + 1 } in
        let rest' = set_task-Others P s t x rest in
        subst (Each P)
          (sym (count_failure_at agents tasks t f (set_task t x s) (update_self s.st t x)))
          (elim (Bool-cases (ltb (task_at agents tasks t).retries (x.failures + 1))) [
            | inl over ↦
                rw over (finish-Each P (set_task t x s) t z f [] rest' (fail (ltb→lt _ _ over)))
            | inr within ↦
                rw within (set_task-Each P (set_task t x s) t z rest' (retry (ground arith)))
          ])

  module _ (a : ℕ) (res : AttemptResult) where
    pub settle-Each :
        (res.status ≡ AttemptStatus.passed
          → P t (record (seen agents tasks s t a res) {
            done = true;
            final = FinalStatus.passed;
            message = [];
          }))
        → (((f : FinalStatus)
            → Fails f res.status
            → (s.st t).failures + 1 ≤ (task_at agents tasks t).retries
            → P t (record (seen agents tasks s t a res) { failures = (s.st t).failures + 1 })))
        → ((f : FinalStatus)
            → Fails f res.status
            → (task_at agents tasks t).retries < (s.st t).failures + 1
            → P t (record (seen agents tasks s t a res) {
              failures = (s.st t).failures + 1;
              done = true;
              final = f;
              message = [];
            }))
        → (res.status ≡ AttemptStatus.agent_error
            → Each P (retire agents tasks a (set_task t (seen agents tasks s t a res) s)))
        → Each P (settle agents tasks a t res.status (record_attempt agents tasks a t res s))
    unfolding settle record_attempt
    settle-Each pass retry fail error = by_status res.status refl
      where
        by_status :
            (status : AttemptStatus)
            → res.status ≡ status
            → Each P (settle agents tasks a t status (record_attempt agents tasks a t res s))
        by_status AttemptStatus.passed e =
            finish-Each P s t (seen agents tasks s t a res) FinalStatus.passed [] rest (pass e)
        by_status AttemptStatus.failed e =
            count_failure-Each (seen agents tasks s t a res) FinalStatus.failed
              (retry FinalStatus.failed (inl (refl, e))) (fail FinalStatus.failed (inl (refl, e)))
        by_status AttemptStatus.timed_out e =
            count_failure-Each (seen agents tasks s t a res) FinalStatus.timed_out
              (retry FinalStatus.timed_out (inr (refl, e)))
              (fail FinalStatus.timed_out (inr (refl, e)))
        by_status AttemptStatus.agent_error e = error e
