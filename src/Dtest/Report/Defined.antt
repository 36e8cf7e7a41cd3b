-- ===== src/Dtest/Report/Defined.antt =====
-- dtest/src/report.cpp on the summaries of dtest/src/scheduler.cpp.
use computing_test_plat.Base.{
  ℕ, ◌<◌, ◌≡◌, refl, List, [], ◌∷◌, Option, some, true, ◌&&◌, not, if_both, Text, All, length, ◌⊎◌,
  inl, inr,
}
use computing_test_plat.Dtest.Types.{
  Task, AgentInfo, AttemptStatus, AttemptRecord, FinalStatus, TaskOutcome,
}
use computing_test_plat.Dtest.Summary.{final_eq, flaky}
use computing_test_plat.Dtest.Scheduler.{Run, Reach, summary, size_mod}
use computing_test_plat.Dtest.Scheduler.Tasks.{Verdict, last_status, count_failed, count_passed}
use computing_test_plat.Dtest.Scheduler.Results.{Truthful, summary-Truthful}
use computing_test_plat.Dtest.Report.{
  last_attempt, outcome_text, outcome_texts, render_text, is_passed,
}
use computing_test_plat.Dtest.Report.Junit.{testcase, testcases, render_junit, verdict_element}

abbrev IsSome : Option Text → Type 0
IsSome o = (t : Text) × (o ≡ some t)

some-attempt :
    (rs : List AttemptRecord) (st : AttemptStatus)
    → last_status rs ≡ some st
    → (a : AttemptRecord) × (last_attempt rs ≡ some a)
unfolding last_status
some-attempt [] st h = absurd (cc h)
some-attempt (a ∷ []) st h = (a, refl)
some-attempt (a ∷ b ∷ rs) st h = some-attempt (b ∷ rs) st h

-- Only an unschedulable task may have no attempt.
abbrev HasAttempt : TaskOutcome → Type 0
HasAttempt o =
    (final_eq o.status FinalStatus.unschedulable ≡ true)
    ⊎ ((a : AttemptRecord) × (last_attempt o.attempts ≡ some a))

Truthful-HasAttempt : (o : TaskOutcome) → Truthful o → HasAttempt o
unfolding final_eq
Truthful-HasAttempt o v =
    go o.status (count_failed o.attempts) (count_passed o.attempts) o.task.retries v
  where
    go :
        (f : FinalStatus) (n p b : ℕ)
        → Verdict true f n p (last_status o.attempts) b
        → (final_eq f FinalStatus.unschedulable ≡ true)
          ⊎ ((a : AttemptRecord) × (last_attempt o.attempts ≡ some a))
    go FinalStatus.passed n p b v = inr (some-attempt o.attempts AttemptStatus.passed v.2)
    go FinalStatus.failed n p b v = inr (some-attempt o.attempts AttemptStatus.failed v.2)
    go FinalStatus.timed_out n p b v = inr (some-attempt o.attempts AttemptStatus.timed_out v.2)
    go FinalStatus.unschedulable n p b v = inl refl

module _ (seconds : AttemptRecord → Text) where
  outcome_text-IsSome : (o : TaskOutcome) → HasAttempt o → IsSome (outcome_text seconds o)
  unfolding outcome_text
  outcome_text-IsSome o h =
      if_both IsSome (final_eq o.status FinalStatus.unschedulable) _ _ (λ _. (_, refl))
        (λ other. elim h [ inl e ↦ absurd (cc (other, e)) | inr (a, e) ↦ rw e (_, refl) ])

  outcome_texts-IsSome :
      (os : List TaskOutcome) → All Truthful os → IsSome (outcome_texts seconds os)
  unfolding outcome_texts
  outcome_texts-IsSome [] h = ([], refl)
  outcome_texts-IsSome (o ∷ os) h =
      let (t, e) = outcome_text-IsSome o (Truthful-HasAttempt o h.0) in
      let (ts, es) = outcome_texts-IsSome os h.1 in rw (e, es) (_, refl)

module _ (seconds : List AttemptRecord → Text) where
  verdict_element-IsSome : (o : TaskOutcome) → HasAttempt o → IsSome (verdict_element seconds o)
  verdict_element-IsSome o h =
      if_both IsSome (final_eq o.status FinalStatus.unschedulable) _ _ (λ _. (_, refl))
        (λ other.
          if_both IsSome (not (is_passed o.status)) _ _
            (λ _. elim h [ inl e ↦ absurd (cc (other, e)) | inr (a, e) ↦ rw e (_, refl) ])
            (λ _. (_, refl)))

  testcase-IsSome : (o : TaskOutcome) → HasAttempt o → IsSome (testcase seconds o)
  unfolding testcase
  testcase-IsSome o h =
      if_both IsSome (is_passed o.status && not (flaky o)) _ _ (λ _. (_, refl))
        (λ _. let (v, e) = verdict_element-IsSome o h in rw e (_, refl))

  testcases-IsSome : (os : List TaskOutcome) → All Truthful os → IsSome (testcases seconds os)
  unfolding testcases
  testcases-IsSome [] h = ([], refl)
  testcases-IsSome (o ∷ os) h =
      let (t, e) = testcase-IsSome o (Truthful-HasAttempt o h.0) in
      let (ts, es) = testcases-IsSome os h.1 in rw (e, es) (_, refl)

-- Both reports of the summary of a run can be written, whatever its interleaving and results, once
-- every task has a verdict: neither takes the last attempt of an outcome that has none.
pub render-IsSome :
    (agents : List AgentInfo) (tasks : List Task) (s : Run) (one : AttemptRecord → Text)
    (sum : List AttemptRecord → Text) (name wall : Text)
    → length tasks < size_mod
    → Reach agents tasks s
    → ((t : ℕ) → t < length tasks → (s.st t).done ≡ true)
    → IsSome (render_text one wall (summary agents tasks s))
      × IsSome (render_junit sum name wall (summary agents tasks s))
unfolding render_text render_junit
render-IsSome agents tasks s one sum name wall small r done =
    let truthful = summary-Truthful agents tasks s small r done in
    let os = (summary agents tasks s).outcomes in
    let (body, e) = outcome_texts-IsSome one os truthful in
    let (cases, es) = testcases-IsSome sum os truthful in (rw e (_, refl), rw es (_, refl))
