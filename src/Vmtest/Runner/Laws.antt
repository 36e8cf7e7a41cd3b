-- ===== src/Vmtest/Runner/Laws.antt =====
-- vmtest/src/tests.cpp: which tests run, and in what order.
use computing_test_plat.Base.{
  ℕ, ◌≡◌, ◌≢◌, ◌↔◌, refl, List, [], ◌∷◌, true, if_both, Text, Any, ◌⊎◌, inl, inr, arith, ◌==◌, ◌++◌,
  codes, starts_with, starts_with-append, starts_with_sound, Bool-cases, ap,
}
use computing_test_plat.Vmtest.Junit.{TestResult, Outcome, passed, failed, skipped, is_failed}
use computing_test_plat.Vmtest.Runner.{
  TestCase, result, matches_filter, run_from, run_tests, failures, exit_code, Ending, returned,
  skip_test, failure, contains,
}

abbrev pub Failed : TestResult → Type 0
Failed r = r.outcome ≡ failed

failures-none : (rs : List TestResult) → (failures rs ≡ 0) → Any Failed rs → ⊥
failures-none (r ∷ rs) h (inl bad) = absurd (ground (arith, h, bad))
failures-none (r ∷ rs) h (inr there) = failures-none rs (omega (arith, h)) there
failures-none [] h bad = elim bad [ ]

failed_or_not : (o : Outcome) → (o ≡ failed) ⊎ (is_failed o ≡ 0)
failed_or_not passed = inr refl
failed_or_not failed = inl refl
failed_or_not skipped = inr refl

failures-some : (rs : List TestResult) → failures rs ≢ 0 → Any Failed rs
failures-some [] h = absurd (h refl)
failures-some (r ∷ rs) h = elim (failed_or_not r.outcome) [
  | inl bad ↦ inl bad
  | inr fine ↦ inr (failures-some rs (λ e. h (omega (arith, e, fine))))
]

-- The harness exits with 1 exactly when some test failed, and with 0 in all other cases: a skipped
-- test does not count.
pub exit_code_iff :
    (rs : List TestResult)
    → ((exit_code rs ≡ 1) ↔ Any Failed rs) × ((exit_code rs ≡ 0) ⊎ (exit_code rs ≡ 1))
unfolding exit_code
exit_code_iff rs = (
  (
    λ h. failures-some rs (λ e. absurd (ground (arith, h, e))),
    λ bad.
        if_both (λ (n : ℕ). n ≡ 1) (failures rs == 0) 0 1
          (λ e. absurd (failures-none rs (ground (arith, e)) bad)) (λ _. refl),
  ),
  if_both (λ (n : ℕ). (n ≡ 0) ⊎ (n ≡ 1)) (failures rs == 0) 0 1 (λ _. inl refl) (λ _. inr refl),
)

-- The text occurs in the other.
abbrev pub Occurs : Text → Text → Type 0
Occurs p s = (front : Text) × (back : Text) × (s ≡ front ++ (p ++ back))

contains-front : (s p : Text) → starts_with s p ≡ true → contains s p ≡ true
unfolding contains starts_with
contains-front [] [] h = refl
contains-front [] (b ∷ p) h = absurd (cc h)
contains-front (c ∷ s) p h = rw h refl

contains-append : (front p back : Text) → contains (front ++ (p ++ back)) p ≡ true
unfolding contains
contains-append [] p back = contains-front (p ++ back) p (starts_with-append p back)
contains-append (c ∷ front) p back =
    let later = contains-append front p back in ground (arith, later)

contains-Occurs : (s p : Text) → contains s p ≡ true → Occurs p s
unfolding contains
contains-Occurs [] [] h = ([], [], refl)
contains-Occurs [] (b ∷ p) h = absurd (cc h)
contains-Occurs (c ∷ s) p h = elim (Bool-cases (starts_with (c ∷ s) p)) [
  | inl here ↦ let (back, e) = starts_with_sound (c ∷ s) p here in ([], back, e)
  | inr no_front ↦
      let (front, back, e) = contains-Occurs s p (ground (arith, h, no_front)) in
      (c ∷ front, back, ap (λ t. c ∷ t) e)
]

-- What a result is to say of the end of a test.
abbrev pub Says : Ending → TestResult → Type 0
Says returned r = (r.outcome ≡ passed) × (r.message ≡ [])
Says (skip_test why) r = (r.outcome ≡ skipped) × (r.message ≡ why)
Says (failure why) r = (r.outcome ≡ failed) × (r.message ≡ why)

result-Says : (suite name : Text) (e : Ending) → Says e (result suite name e)
result-Says suite name returned = (refl, refl)
result-Says suite name (skip_test why) = (refl, refl)
result-Says suite name (failure why) = (refl, refl)

result_named :
    (suite name : Text) (e : Ending)
    → ((result suite name e).suite ≡ suite) × ((result suite name e).name ≡ name)
result_named suite name returned = (refl, refl)
result_named suite name (skip_test why) = (refl, refl)
result_named suite name (failure why) = (refl, refl)

module _ (S : Type 0) where
  -- The filter occurs in the full name of the test; the empty one occurs in every name.
  abbrev pub Selected : Text → TestCase S → Type 0
  Selected filter t = Occurs filter (t.suite ++ (codes "." ++ t.name))

  matches_filter_iff :
      (filter : Text) (t : TestCase S) → (matches_filter S t filter ≡ true) ↔ Selected filter t
  unfolding matches_filter
  matches_filter_iff [] t = ((λ _. ([], _, refl)), (λ _. refl))
  matches_filter_iff (c ∷ p) t = (
    contains-Occurs (t.suite ++ (codes "." ++ t.name)) (c ∷ p),
    (λ (front, back, e). rw e (contains-append front (c ∷ p) back)),
  )

  -- The results of the tests on a context, and the context at their end: a selected test is run on what
  -- those before it left and has the next result, under its name; another test is not run.
  abbrev pub Ran : Text → List (TestCase S) → S → List TestResult → S → Type 0
  Ran filter [] s rs end = (rs ≡ []) × (s ≡ end)
  Ran filter (t ∷ ts) s rs end =
      (Selected filter t
        × (r : TestResult) × (rest : List TestResult) × (rs ≡ r ∷ rest)
        × (r.suite ≡ t.suite)
        × (r.name ≡ t.name)
        × Says (t.fn s).0 r
        × Ran filter ts (t.fn s).1 rest end)
      ⊎ ((¬ Selected filter t) × Ran filter ts s rs end)

  run_from-Ran :
      (filter : Text) (ts : List (TestCase S)) (s : S)
      → Ran filter ts s (run_from S filter ts s).0 (run_from S filter ts s).1
  unfolding run_from
  run_from-Ran filter [] s = (refl, refl)
  run_from-Ran filter (t ∷ ts) s =
      let (ending, after) = t.fn s in
      let (suite, name) = result_named t.suite t.name ending in
      let chosen = run_from-Ran filter ts after in
      let left_out = run_from-Ran filter ts s in
      let (to, from) = matches_filter_iff filter t in
      if_both (λ (x : List TestResult × S). Ran filter (t ∷ ts) s x.0 x.1)
        (matches_filter S t filter) _ _
        (λ hit. inl (to hit, _, _, refl, suite, name, result-Says t.suite t.name ending, chosen))
        (λ miss. inr ((λ x. let hit = from x in cc (hit, miss)), left_out))

  -- A run gives one result for each test whose full name, its suite, a dot and its name, contains the
  -- filter, in the order of the tests and under the name of the test: passed where the test returns on
  -- the context that the tests before it left, skipped or failed with its message where it throws, which
  -- does not stop the run; no other test is run, and at the end the shared guest is released once.
  pub run_tests-Ran :
      (release_vm : S → S) (filter : Text) (ts : List (TestCase S)) (s : S)
      → (end : S) × Ran filter ts s (run_tests S release_vm filter ts s).0 end
        × ((run_tests S release_vm filter ts s).1 ≡ release_vm end)
  unfolding run_tests
  run_tests-Ran release_vm filter ts s =
      ((run_from S filter ts s).1, run_from-Ran filter ts s, refl)
