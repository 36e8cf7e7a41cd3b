-- ===== src/Dtest/Scheduler/Tasks.antt =====
-- dtest/src/scheduler.cpp: one task's state, and the changes that the scheduler makes to it.
use computing_test_plat.Base.{
  ℕ, ◌+◌, ◌≤◌, ◌<◌, ◌≡◌, refl, ◌++◌, List, [], ◌∷◌, Option, none, some, Bool, true, false, arith,
  update, All, All-append, Text, ◌⊎◌,
}
use computing_test_plat.Dtest.Types.{Task, AgentInfo, AttemptStatus, AttemptRecord, FinalStatus}
use computing_test_plat.Dtest.Scheduler.{TaskState, fresh_task, agent_at, task_at, able}

abbrev pub counts_as_failure : AttemptStatus → ℕ
counts_as_failure AttemptStatus.passed = 0
counts_as_failure AttemptStatus.failed = 1
counts_as_failure AttemptStatus.timed_out = 1
counts_as_failure AttemptStatus.agent_error = 0

abbrev pub counts_as_pass : AttemptStatus → ℕ
counts_as_pass AttemptStatus.passed = 1
counts_as_pass _ = 0

-- The attempts of a list that spent a retry, and those that passed.
pub count_failed : List AttemptRecord → ℕ
count_failed [] = 0
count_failed (r ∷ rs) = counts_as_failure r.result.status + count_failed rs

pub count_passed : List AttemptRecord → ℕ
count_passed [] = 0
count_passed (r ∷ rs) = counts_as_pass r.result.status + count_passed rs

unfoldable pub last_status : List AttemptRecord → Option AttemptStatus
last_status [] = none
last_status (r ∷ []) = some r.result.status
last_status (r ∷ q ∷ rs) = last_status (q ∷ rs)

pub count_failed-append :
    (rs : List AttemptRecord) (r : AttemptRecord)
    → count_failed (rs ++ r ∷ []) ≡ count_failed rs + counts_as_failure r.result.status
unfolding count_failed
count_failed-append [] r = omega arith
count_failed-append (q ∷ rs) r = omega (arith, count_failed-append rs r)

pub count_passed-append :
    (rs : List AttemptRecord) (r : AttemptRecord)
    → count_passed (rs ++ r ∷ []) ≡ count_passed rs + counts_as_pass r.result.status
unfolding count_passed
count_passed-append [] r = omega arith
count_passed-append (q ∷ rs) r = omega (arith, count_passed-append rs r)

pub last_status-append :
    (rs : List AttemptRecord) (r : AttemptRecord)
    → last_status (rs ++ r ∷ []) ≡ some r.result.status
unfolding last_status
last_status-append [] r = refl
last_status-append (q ∷ []) r = refl
last_status-append (q ∷ p ∷ rs) r = last_status-append (p ∷ rs) r

-- What a task's verdict says of its failures, passes and last attempt, under its retry budget.
abbrev pub Verdict : Bool → FinalStatus → ℕ → ℕ → Option AttemptStatus → ℕ → Type 0
Verdict false f fails passes last budget = (fails ≤ budget) × (passes ≡ 0)
Verdict true FinalStatus.passed fails passes last budget =
    (fails ≤ budget) × (passes ≡ 1) × (last ≡ some AttemptStatus.passed)
Verdict true FinalStatus.failed fails passes last budget =
    (fails ≡ budget + 1) × (passes ≡ 0) × (last ≡ some AttemptStatus.failed)
Verdict true FinalStatus.timed_out fails passes last budget =
    (fails ≡ budget + 1) × (passes ≡ 0) × (last ≡ some AttemptStatus.timed_out)
Verdict true FinalStatus.unschedulable fails passes last budget = (fails ≤ budget) × (passes ≡ 0)

-- The state behind an attempt, before its status is looked at.
abbrev pub attempted : TaskState → ℕ → AttemptRecord → TaskState
attempted x a r = record x {
  running = false;
  tried = update x.tried a true;
  attempts = x.attempts ++ r ∷ [];
}

module _ (agents : List AgentInfo) (tasks : List Task) where
  -- The record names an agent that may run the task.
  abbrev pub Served : ℕ → AttemptRecord → Type 0
  Served t r =
      (a : ℕ) × (able agents tasks a t ≡ true) × (r.agent ≡ (agent_at agents tasks a).address)

  pub record TaskOk (t : ℕ) (x : TaskState) : Type 0 where
    pub tallied : x.failures ≡ count_failed x.attempts
    pub verdict :
        Verdict x.done x.final x.failures
          (count_passed x.attempts)
          (last_status x.attempts)
          (task_at agents tasks t).retries
    pub idle : x.done ≡ true → x.running ≡ false
    pub routed : All (Served t) x.attempts

  pub fresh_task-TaskOk : (t : ℕ) → TaskOk t fresh_task
  unfolding count_failed count_passed
  fresh_task-TaskOk t = record {
    tallied = refl;
    verdict = (omega arith, refl);
    idle = λ e. ground arith;
    routed = tt;
  }

  module _ (t : ℕ) (x : TaskState) (ok : TaskOk t x) (undone : x.done ≡ false) where
    open_verdict : (x.failures ≤ (task_at agents tasks t).retries) × (count_passed x.attempts ≡ 0)
    open_verdict = let v = ok.verdict in ground arith

    pub start-TaskOk : TaskOk t (record x { running = true })
    start-TaskOk = record {
      tallied = ok.tallied;
      verdict = ok.verdict;
      idle = λ e. ground arith;
      routed = ok.routed;
    }

    pub give_up-TaskOk :
        (msg : Text)
        → x.running ≡ false
        → TaskOk t (record x { done = true; final = FinalStatus.unschedulable; message = msg })
    give_up-TaskOk msg still = record {
      tallied = ok.tallied;
      verdict = open_verdict;
      idle = λ e. still;
      routed = ok.routed;
    }

    module _ (a : ℕ) (r : AttemptRecord) (served : Served t r) where
      attempted_routed : All (Served t) (x.attempts ++ r ∷ [])
      attempted_routed = All-append (Served t) x.attempts (r ∷ []) ok.routed (served, tt)

      pub pass-TaskOk :
          (msg : Text)
          → r.result.status ≡ AttemptStatus.passed
          → TaskOk t
              (record (attempted x a r) { done = true; final = FinalStatus.passed; message = msg })
      pass-TaskOk msg e =
          let (fits, clean) = open_verdict in
          let f = count_failed-append x.attempts r in
          let p = count_passed-append x.attempts r in
          let l = last_status-append x.attempts r in
          let tally = ok.tallied in
          record {
            tallied = ground (arith, f, tally);
            verdict = (fits, ground (arith, p), ground (arith, l));
            idle = λ _. refl;
            routed = attempted_routed;
          }

      pub error-TaskOk : r.result.status ≡ AttemptStatus.agent_error → TaskOk t (attempted x a r)
      error-TaskOk e =
          let (fits, clean) = open_verdict in
          let f = count_failed-append x.attempts r in
          let p = count_passed-append x.attempts r in
          let tally = ok.tallied in
          let v : Verdict x.done x.final x.failures (count_passed (x.attempts ++ r ∷ []))
              (last_status (x.attempts ++ r ∷ [])) (task_at agents tasks t).retries =
            rw undone (fits, ground (arith, p)) in
          record {
            tallied = ground (arith, f, tally);
            verdict = v;
            idle = λ _. refl;
            routed = attempted_routed;
          }

      pub retry-TaskOk :
          counts_as_failure r.result.status ≡ 1
          → x.failures + 1 ≤ (task_at agents tasks t).retries
          → TaskOk t (record (attempted x a r) { failures = x.failures + 1 })
      retry-TaskOk e fits =
          let (_, clean) = open_verdict in
          let f = count_failed-append x.attempts r in
          let p = count_passed-append x.attempts r in
          let tally = ok.tallied in
          let passes : counts_as_pass r.result.status ≡ 0 = ground arith in
          let v : Verdict x.done x.final (x.failures + 1) (count_passed (x.attempts ++ r ∷ []))
              (last_status (x.attempts ++ r ∷ [])) (task_at agents tasks t).retries =
            rw undone (fits, omega (arith, p, clean, passes)) in
          record {
            tallied = omega (arith, f, tally, e);
            verdict = v;
            idle = λ _. refl;
            routed = attempted_routed;
          }

      pub fail-TaskOk :
          (f : FinalStatus) (msg : Text)
          → ((f ≡ FinalStatus.failed) × (r.result.status ≡ AttemptStatus.failed))
            ⊎ ((f ≡ FinalStatus.timed_out) × (r.result.status ≡ AttemptStatus.timed_out))
          → (task_at agents tasks t).retries < x.failures + 1
          → TaskOk t (record (attempted x a r) {
            failures = x.failures + 1;
            done = true;
            final = f;
            message = msg;
          })
      fail-TaskOk f msg which over =
          let (fits, clean) = open_verdict in
          let p = count_passed-append x.attempts r in
          let l = last_status-append x.attempts r in
          let tally = ok.tallied in
          let c = count_failed-append x.attempts r in
          record {
            tallied = ground (arith, c, tally);
            verdict = ground (arith, p, l);
            idle = λ _. refl;
            routed = attempted_routed;
          }
