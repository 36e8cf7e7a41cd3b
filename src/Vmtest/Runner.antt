-- ===== src/Vmtest/Runner.antt =====
-- vmtest/src/tests.cpp, `matches_filter` and `run_tests`, and the result of vmtest/src/main.cpp. What a
-- test does to the context, and the release of the shared guest, are functions on the state S of the
-- context; a test returns, or throws `SkipTest` or another exception. Durations are left out.
pub mod Laws
use computing_test_plat.Base.{
  ℕ, zero, suc, ◌+◌, List, [], ◌∷◌, ◌++◌, Bool, true, false, ◌||◌, ◌==◌, if◌then◌else◌, Text, codes,
  is_empty, starts_with,
}
use computing_test_plat.Vmtest.Junit.{TestResult, Outcome, passed, failed, skipped, is_failed}

pub data Ending : Type 0 where
  returned : Ending
  skip_test : Text → Ending
  failure : Text → Ending

-- `s.find(p) != npos`.
unfoldable pub contains : Text → Text → Bool
unfolding starts_with
contains [] p = is_empty p
contains (c ∷ s) p = starts_with (c ∷ s) p || contains s p

abbrev pub result : Text → Text → Ending → TestResult
result suite name returned = record { suite = suite; name = name; outcome = passed; message = [] }
result suite name (skip_test what) = record {
  suite = suite;
  name = name;
  outcome = skipped;
  message = what;
}
result suite name (failure what) = record {
  suite = suite;
  name = name;
  outcome = failed;
  message = what;
}

abbrev pub failures : List TestResult → ℕ
failures [] = 0
failures (r ∷ rs) = is_failed r.outcome + failures rs

-- What `main` returns once the tests have run and any report is written.
unfoldable pub exit_code : List TestResult → ℕ
exit_code rs = if failures rs == 0 then 0 else 1

module _ (S : Type 0) where
  pub record TestCase : Type 0 where
    pub suite : Text
    pub name : Text
    pub fn : S → Ending × S

  unfoldable pub matches_filter : TestCase → Text → Bool
  unfolding contains
  matches_filter t filter =
      if is_empty filter then true else contains (t.suite ++ (codes "." ++ t.name)) filter

  -- The loop, with what it leaves in the context.
  unfoldable pub run_from : Text → List TestCase → S → List TestResult × S
  unfolding matches_filter
  run_from filter [] s = ([], s)
  run_from filter (t ∷ ts) s =
      let (ending, s') = t.fn s in
      let (after, end) = run_from filter ts s' in
      let skipping = run_from filter ts s in
      if matches_filter t filter then (result t.suite t.name ending ∷ after, end) else skipping

  unfoldable pub run_tests : (S → S) → Text → List TestCase → S → List TestResult × S
  unfolding run_from
  run_tests release_vm filter ts s =
      let (results, end) = run_from filter ts s in (results, release_vm end)
