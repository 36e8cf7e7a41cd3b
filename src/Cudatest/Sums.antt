-- ===== src/Cudatest/Sums.antt =====
-- cudatest/src/reference.cpp: the sum and the histogram against their definitions.
use computing_test_plat.Base.{
  ℕ, zero, suc, ◌+◌, ◌*◌, ◌%◌, ◌^◌, ◌<◌, ◌≤◌, ◌≡◌, refl, ap, ◌∙◌, List, [], ◌∷◌, ◌==◌,
  if◌then◌else◌, All, get_or, replicate, length, arith,
}
use computing_test_plat.Cudatest.{
  u64, sum_from, cpu_reduce_sum, bump, histogram_from, cpu_histogram256,
}

pub sum : List ℕ → ℕ
sum [] = 0
sum (x ∷ xs) = x + sum xs

sum_from_lem : (s : ℕ) (xs : List ℕ) → s < u64 → sum_from s xs ≡ (s + sum xs) % u64
unfolding sum_from sum
sum_from_lem s [] h = omega arith
sum_from_lem s (x ∷ xs) h = omega (arith, sum_from_lem ((s + x) % u64) xs (omega arith))

sum-le : (xs : List ℕ) → All (λ x. x < 2 ^ 32) xs → sum xs ≤ length xs * 2 ^ 32
unfolding sum
sum-le [] h = omega arith
sum-le (x ∷ xs) h = omega (arith, h.0, sum-le xs h.1)

-- The reference sum of fewer than 2^32 numbers of 32 bits is their sum: the 64 bits do not overflow.
pub cpu_reduce_sum_exact :
    (xs : List ℕ) → All (λ x. x < 2 ^ 32) xs → length xs < 2 ^ 32 → cpu_reduce_sum xs ≡ sum xs
unfolding cpu_reduce_sum
cpu_reduce_sum_exact xs small few = omega (arith, sum_from_lem 0 xs (omega arith), sum-le xs small)

-- How often a value occurs.
pub count : ℕ → List ℕ → ℕ
count b [] = 0
count b (x ∷ xs) = (if x == b then 1 else 0) + count b xs

bump-get_or :
    (bins : List ℕ) (i b : ℕ)
    → i < length bins
    → get_or (bump bins i) b 0
      ≡ (if i == b then (get_or bins b 0 + 1) % 2 ^ 32 else get_or bins b 0)
unfolding bump
bump-get_or [] i b h = absurd (omega arith)
bump-get_or (x ∷ bins) zero zero h = refl
bump-get_or (x ∷ bins) zero (suc b) h = ground arith
bump-get_or (x ∷ bins) (suc i) zero h = ground arith
bump-get_or (x ∷ bins) (suc i) (suc b) h = ground (arith, bump-get_or bins i b (omega arith))

length-bump : (bins : List ℕ) (i : ℕ) → length (bump bins i) ≡ length bins
unfolding bump
length-bump [] i = refl
length-bump (x ∷ bins) zero = refl
length-bump (x ∷ bins) (suc i) = omega (arith, length-bump bins i)

histogram_from-get_or :
    (bins xs : List ℕ) (b : ℕ)
    → All (λ x. x < length bins) xs
    → get_or bins b 0 + length xs < 2 ^ 32
    → get_or (histogram_from bins xs) b 0 ≡ get_or bins b 0 + count b xs
unfolding histogram_from count
histogram_from-get_or bins [] b h few = omega arith
histogram_from-get_or bins (x ∷ xs) b h few =
    let one = bump-get_or bins x b h.0 in
    let bound : get_or (bump bins x) b 0 + length xs < 2 ^ 32 = ground (arith, one, few) in
    let same : length (bump bins x) ≡ length bins = length-bump bins x in
    let rest = histogram_from-get_or (bump bins x) xs b (rw same h.1) bound in
    ground (arith, one, rest, few)

zeros : (n b : ℕ) → get_or (replicate {A = ℕ} n 0) b 0 ≡ 0
zeros zero b = refl
zeros (suc n) zero = refl
zeros (suc n) (suc b) = zeros n b

length-replicate : (n : ℕ) → length (replicate {A = ℕ} n 0) ≡ n
length-replicate zero = refl
length-replicate (suc n) = ap suc (length-replicate n)

-- In the reference histogram of fewer than 2^32 bytes each bin counts how often its byte occurs.
pub cpu_histogram256-get_or :
    (xs : List ℕ) (b : ℕ)
    → All (λ x. x < 256) xs
    → length xs < 2 ^ 32
    → get_or (cpu_histogram256 xs) b 0 ≡ count b xs
unfolding cpu_histogram256
cpu_histogram256-get_or xs b small few =
    let empty = zeros 256 b in
    let size : length (replicate {A = ℕ} 256 0) ≡ 256 = length-replicate 256 in
    histogram_from-get_or (replicate 256 0) xs b (rw size small) (omega (arith, empty, few))
    ∙ ap (λ k. k + count b xs) empty
    ∙ omega arith
