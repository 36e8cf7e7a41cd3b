-- ===== src/Cudatest/Tests.antt =====
-- cudatest/src/reference.cpp at small inputs.
use computing_test_plat.Base.{
  ℕ, ◌+◌, ◌≡◌, ◌≢◌, ◌<◌, ◌⊎◌, List, [], ◌∷◌, true, false, ◌==◌, leb, ltb, All, get_or, arith, ◌-◌,
  ◌*◌, ◌/◌, length,
}
use computing_test_plat.Base.Ascii.{decimal}
use computing_test_plat.Cudatest.{u64, rng, step, cpu_histogram256, Floats, allclose}
use computing_test_plat.Cudatest.Random.{step-ne-zero}
use computing_test_plat.Cudatest.Sums.{count, cpu_histogram256-get_or}
use computing_test_plat.Cudatest.Compare.{Matches, Found, allclose_first_bad, Paired}

abbrev some_bytes : List ℕ
some_bytes = 7 ∷ 255 ∷ 7 ∷ []

cpu_histogram256-get_or_example : get_or (cpu_histogram256 some_bytes) 7 0 ≡ count 7 some_bytes
cpu_histogram256-get_or_example = cpu_histogram256-get_or some_bytes 7 (omega arith) (omega arith)

step-ne-zero_example : (rng 0 ≢ 0) × (rng 0 < u64) × (step 1 ≢ 0) × (step 1 < u64)
step-ne-zero_example = step-ne-zero 0 1 (omega arith) (omega arith) (omega arith)

-- Whole numbers that are not negative, in place of both kinds of floats.
abbrev whole : Floats ℕ ℕ
whole = record {
  is_nan = λ _. false;
  is_inf = λ _. false;
  equal = λ a b. a == b;
  wide = λ a. a;
  nought = 0;
  minus = λ a b. (a - b) + (b - a);
  plus = λ a b. a + b;
  times = λ a b. a * b;
  over = λ a b. a / b;
  fabs = λ a. a;
  le = leb;
  gt = λ a b. ltb b a;
  is_zero = λ a. a == 0;
  show_float = decimal;
  show_double = decimal;
}

abbrev actual : List ℕ
actual = 1 ∷ 2 ∷ []

abbrev expected : List ℕ
expected = 1 ∷ 5 ∷ []

allclose_first_bad_example :
    ((length actual ≢ length expected) × ((allclose whole 0 1 false actual expected).ok ≡ false))
    ⊎ ((pairs : List (ℕ × ℕ)) × Paired whole 0 1 false pairs actual expected
        × ((((allclose whole 0 1 false actual expected).ok ≡ true)
              × All (Matches whole 0 1 false) pairs)
            ⊎ Found whole 0 1 false 0 pairs (allclose whole 0 1 false actual expected)))
allclose_first_bad_example = allclose_first_bad whole 0 1 false actual expected
