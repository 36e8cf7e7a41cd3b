-- ===== src/Cudatest.antt =====
-- cudatest/src/reference.cpp: the host's random data, reference computations and comparison. Arrays are
-- lists; float and double are types with the operations that the code uses.
pub mod Random
pub mod Sums
pub mod Compare
mod Tests
use computing_test_plat.Base.{
  ℕ, zero, suc, ◌+◌, ◌*◌, ◌/◌, ◌%◌, ◌^◌, List, [], ◌∷◌, ◌++◌, Bool, true, false, not, ◌&&◌, ◌||◌,
  ltb, ◌==◌, if◌then◌else◌, Text, codes, get_or, replicate, length,
}
use computing_test_plat.Base.Ascii.{decimal}
use computing_test_plat.Dtest.Agent.{bit_xor}

abbrev pub u64 : ℕ
u64 = 2 ^ 64

-- `Rng`: the state after `Rng(seed)`.
unfoldable pub rng : ℕ → ℕ
rng seed = if seed == 0 then 0x9E3779B97F4A7C15 else seed

-- `s ^= s >> 12; s ^= s << 25; s ^= s >> 27`.
unfoldable pub step : ℕ → ℕ
unfolding bit_xor
step s =
    let a = bit_xor 64 s (s / 2 ^ 12) in
    let b = bit_xor 64 a (a * 2 ^ 25 % u64) in bit_xor 64 b (b / 2 ^ 27)

-- The number that `next` returns, and the state.
unfoldable pub next : ℕ → ℕ × ℕ
unfolding step
next s = (step s * 0x2545F4914F6CDD1D % u64, step s)

unfoldable pub below : ℕ → ℕ → ℕ × ℕ
unfolding next
below n s = if n == 0 then (0, s) else ((next s).0 / 2 ^ 32 % n % 2 ^ 32, (next s).1)

-- `for (auto& x : v) x = ...`, by a draw that gives a value and the state.
unfoldable pub draw : {A : Type 0} → (ℕ → A × ℕ) → ℕ → ℕ → List A
draw f zero s = []
draw f (suc n) s = (f s).0 ∷ draw f n (f s).1

unfoldable pub random_u32 : ℕ → ℕ → ℕ → List ℕ
unfolding draw below rng
random_u32 n seed max_exclusive = draw (below max_exclusive) n (rng seed)

abbrev pub top_byte : ℕ → ℕ × ℕ
top_byte s = ((next s).0 / 2 ^ 56 % 256, (next s).1)

unfoldable pub random_bytes : ℕ → ℕ → List ℕ
unfolding draw next rng
random_bytes n seed = draw top_byte n (rng seed)

-- The loop with its sum so far.
unfoldable pub sum_from : ℕ → List ℕ → ℕ
sum_from s [] = s
sum_from s (x ∷ xs) = sum_from ((s + x) % u64) xs

unfoldable pub cpu_reduce_sum : List ℕ → ℕ
unfolding sum_from
cpu_reduce_sum xs = sum_from 0 xs

-- `++bins[i]`, on 32 bits.
unfoldable pub bump : List ℕ → ℕ → List ℕ
bump [] i = []
bump (b ∷ bins) zero = (b + 1) % 2 ^ 32 ∷ bins
bump (b ∷ bins) (suc i) = b ∷ bump bins i

unfoldable pub histogram_from : List ℕ → List ℕ → List ℕ
unfolding bump
histogram_from bins [] = bins
histogram_from bins (x ∷ xs) = histogram_from (bump bins x) xs

unfoldable pub cpu_histogram256 : List ℕ → List ℕ
unfolding histogram_from
cpu_histogram256 xs = histogram_from (replicate 256 0) xs

-- What the comparison does with numbers: `F` is float and `D` double, the conversion `wide` included.
pub record Floats (F D : Type 0) : Type 0 where
  pub is_nan : F → Bool
  pub is_inf : F → Bool
  pub equal : F → F → Bool
  pub wide : F → D
  pub nought : D
  pub minus : D → D → D
  pub plus : D → D → D
  pub times : D → D → D
  pub over : D → D → D
  pub fabs : D → D
  pub le : D → D → Bool
  pub gt : D → D → Bool
  pub is_zero : F → Bool
  pub show_float : F → Text
  pub show_double : D → Text

pub record CompareResult (D : Type 0) : Type 0 where
  pub ok : Bool
  pub first_bad : ℕ
  pub max_abs_err : D
  pub max_rel_err : D
  pub message : Text

module _ {F D : Type 0} (ops : Floats F D) (rtol atol : D) (equal_nan : Bool) where
  abbrev pub equal_result : CompareResult D
  equal_result = record {
    ok = true;
    first_bad = 0;
    max_abs_err = ops.nought;
    max_rel_err = ops.nought;
    message = [];
  }

  -- Whether a value matches, and the two errors.
  pub record Verdict : Type 0 where
    pub match : Bool
    pub abs_err : D
    pub rel_err : D

  unfoldable pub compare_values : F → F → Verdict
  compare_values a e =
      let size = ops.fabs (ops.wide e) in
      let err = ops.fabs (ops.minus (ops.wide a) (ops.wide e)) in
      if ops.is_nan a || ops.is_nan e
      then record {
        match = equal_nan && (ops.is_nan a && ops.is_nan e);
        abs_err = ops.nought;
        rel_err = ops.nought;
      }
      else if ops.is_inf a || ops.is_inf e
      then record { match = ops.equal a e; abs_err = ops.nought; rel_err = ops.nought }
      else record {
        match = ops.le err (ops.plus atol (ops.times rtol size));
        abs_err = err;
        rel_err = if ops.is_zero e then ops.nought else ops.over err size;
      }

  abbrev mismatch : ℕ → F → F → Text
  mismatch i a e =
      codes "mismatch at index "
      ++ (decimal i
          ++ (codes ": actual="
              ++ (ops.show_float a
                  ++ (codes " expected="
                      ++ (ops.show_float e
                          ++ (codes " (rtol="
                              ++ (ops.show_double rtol
                                  ++ (codes ", atol=" ++ (ops.show_double atol ++ codes ")")))))))))

  abbrev larger : D → D → D
  larger x y = if ops.gt x y then x else y

  -- The body of the loop, at index `i`.
  unfoldable pub observe : ℕ → F → F → CompareResult D → CompareResult D
  unfolding compare_values decimal
  observe i a e res =
      let v = compare_values a e in
      let bad = not v.match && res.ok in
      record {
        ok = if bad then false else res.ok;
        first_bad = if bad then i else res.first_bad;
        max_abs_err = larger v.abs_err res.max_abs_err;
        max_rel_err = larger v.rel_err res.max_rel_err;
        message = if bad then mismatch i a e else res.message;
      }

  unfoldable pub allclose_from : ℕ → List (F × F) → CompareResult D → CompareResult D
  unfolding observe
  allclose_from i [] res = res
  allclose_from i ((a, e) ∷ pairs) res = allclose_from (i + 1) pairs (observe i a e res)

  abbrev pub zip : List F → List F → List (F × F)
  zip (a ∷ as') (e ∷ es) = (a, e) ∷ zip as' es
  zip _ _ = []

  -- Over vectors, whose sizes are compared first.
  unfoldable pub allclose : List F → List F → CompareResult D
  unfolding allclose_from decimal
  allclose actual expected =
      if length actual == length expected
      then allclose_from 0 (zip actual expected) equal_result
      else record equal_result {
        ok = false;
        message =
            codes "size mismatch: "
            ++ (decimal (length actual) ++ (codes " vs " ++ decimal (length expected)));
      }
