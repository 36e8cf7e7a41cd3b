-- ===== src/Dtest/Summary.antt =====
-- dtest/src/scheduler.cpp: the questions that a run's summary answers. The counts, `int` in the
-- source, are numbers without a bound here: a job file has at most 100000 tasks.
use computing_test_plat.Base.{
  ℕ, ◌+◌, ◌≡◌, refl, ◌↔◌, ◌⊎◌, inl, inr, List, [], ◌∷◌, Bool, true, false, arith, ◌==◌,
  if◌then◌else◌, length, any, All, Any, Bool-cases, ◌<◌, Text, codes, suc, ==_iff, any_sound,
  any_complete,
}
use computing_test_plat.Dtest.Types.{
  AttemptStatus, AttemptRecord, FinalStatus, TaskOutcome, RunSummary,
}

unfoldable pub final_eq : FinalStatus → FinalStatus → Bool
final_eq FinalStatus.passed FinalStatus.passed = true
final_eq FinalStatus.failed FinalStatus.failed = true
final_eq FinalStatus.timed_out FinalStatus.timed_out = true
final_eq FinalStatus.unschedulable FinalStatus.unschedulable = true
final_eq _ _ = false

-- The test of the loop in `flaky`.
abbrev pub test_failed : AttemptRecord → Bool
test_failed a = elim a.result.status [
  | AttemptStatus.failed ↦ true
  | AttemptStatus.timed_out ↦ true
  | _ ↦ false
]

unfoldable pub flaky : TaskOutcome → Bool
unfolding final_eq
flaky o = if final_eq o.status FinalStatus.passed then any test_failed o.attempts else false

-- `for (const auto& o : outcomes) n += test(o);`
count_by : (TaskOutcome → Bool) → List TaskOutcome → ℕ
count_by test [] = 0
count_by test (o ∷ os) = (if test o then 1 else 0) + count_by test os

unfoldable pub count : FinalStatus → RunSummary → ℕ
unfolding final_eq count_by
count f s = count_by (λ o. final_eq o.status f) s.outcomes

unfoldable pub flaky_count : RunSummary → ℕ
unfolding flaky count_by
flaky_count s = count_by flaky s.outcomes

unfoldable pub all_passed : RunSummary → Bool
unfolding count
all_passed s = count FinalStatus.passed s == length s.outcomes

unfoldable pub final_to_string : FinalStatus → Text
final_to_string FinalStatus.passed = codes "passed"
final_to_string FinalStatus.failed = codes "failed"
final_to_string FinalStatus.timed_out = codes "timed-out"
final_to_string FinalStatus.unschedulable = codes "unschedulable"

count_by-le : (test : TaskOutcome → Bool) (os : List TaskOutcome) → count_by test os < length os + 1
unfolding count_by
count_by-le test [] = omega arith
count_by-le test (o ∷ os) = ground (arith, count_by-le test os)

one_status :
    (f : FinalStatus)
    → (if final_eq f FinalStatus.passed then 1 else 0)
        + (if final_eq f FinalStatus.failed then 1 else 0)
        + (if final_eq f FinalStatus.timed_out then 1 else 0)
        + (if final_eq f FinalStatus.unschedulable then 1 else 0)
      ≡ suc 0
unfolding final_eq
one_status FinalStatus.passed = refl
one_status FinalStatus.failed = refl
one_status FinalStatus.timed_out = refl
one_status FinalStatus.unschedulable = refl

final_eq-passed : (f : FinalStatus) → final_eq f FinalStatus.passed ≡ true → f ≡ FinalStatus.passed
unfolding final_eq
final_eq-passed FinalStatus.passed h = refl
final_eq-passed FinalStatus.failed h = cc
final_eq-passed FinalStatus.timed_out h = cc
final_eq-passed FinalStatus.unschedulable h = cc

-- Every outcome is counted under exactly one status.
pub counts_partition :
    (s : RunSummary)
    → count FinalStatus.passed s
        + count FinalStatus.failed s
        + count FinalStatus.timed_out s
        + count FinalStatus.unschedulable s
      ≡ length s.outcomes
unfolding count
counts_partition s = go s.outcomes
  where
    go :
        (os : List TaskOutcome)
        → count_by (λ o. final_eq o.status FinalStatus.passed) os
            + count_by (λ o. final_eq o.status FinalStatus.failed) os
            + count_by (λ o. final_eq o.status FinalStatus.timed_out) os
            + count_by (λ o. final_eq o.status FinalStatus.unschedulable) os
          ≡ length os
    go [] = refl
    go (o ∷ os) = let one = one_status o.status in let rest = go os in omega (arith, one, rest)

-- A run has passed exactly when every one of its outcomes has.
pub all_passed_iff :
    (s : RunSummary) → (all_passed s ≡ true) ↔ All (λ o. o.status ≡ FinalStatus.passed) s.outcomes
unfolding all_passed count_by
all_passed_iff s = (
  λ h. to s.outcomes ((==_iff (count FinalStatus.passed s) (length s.outcomes)).0 h),
  λ h. (==_iff (count FinalStatus.passed s) (length s.outcomes)).1 (from s.outcomes h),
)
  where
    test : TaskOutcome → Bool
    test o = final_eq o.status FinalStatus.passed

    to :
        (os : List TaskOutcome)
        → count_by test os ≡ length os
        → All (λ o. o.status ≡ FinalStatus.passed) os
    to [] h = tt
    to (o ∷ os) h = elim (Bool-cases (test o)) [
      | inl hit ↦ (final_eq-passed o.status hit, to os (let e = rw hit at h in omega (arith, e)))
      | inr miss ↦
          let le = count_by-le test os in let e = rw miss at h in absurd (omega (arith, le, e))
    ]

    from :
        (os : List TaskOutcome)
        → All (λ o. o.status ≡ FinalStatus.passed) os
        → count_by test os ≡ length os
    from [] h = refl
    from (o ∷ os) (e, es) = let rest = from os es in ground arith

-- A task counts as flaky exactly when it passed after an attempt that failed or timed out.
pub flaky_iff :
    (o : TaskOutcome)
    → (flaky o ≡ true)
      ↔ (o.status ≡ FinalStatus.passed)
        × Any
            (λ a.
              (a.result.status ≡ AttemptStatus.failed)
              ⊎ (a.result.status ≡ AttemptStatus.timed_out))
            o.attempts
unfolding flaky
flaky_iff o = (to, from)
  where
    Bad : AttemptRecord → Type 0
    Bad a = (a.result.status ≡ AttemptStatus.failed) ⊎ (a.result.status ≡ AttemptStatus.timed_out)

    sound : (a : AttemptRecord) → test_failed a ≡ true → Bad a
    sound a h = ground arith

    complete : (a : AttemptRecord) → Bad a → test_failed a ≡ true
    complete a h = ground arith

    to : flaky o ≡ true → (o.status ≡ FinalStatus.passed) × Any Bad o.attempts
    to h = elim (Bool-cases (final_eq o.status FinalStatus.passed)) [
      | inl passed ↦ (
        final_eq-passed o.status passed,
        any_sound test_failed Bad sound complete o.attempts (ground arith),
      )
      | inr other ↦ absurd (ground arith)
    ]

    from : (o.status ≡ FinalStatus.passed) × Any Bad o.attempts → flaky o ≡ true
    from (e, bad) =
        let hit = any_complete test_failed Bad sound complete o.attempts bad in ground arith
