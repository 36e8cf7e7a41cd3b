-- ===== src/Cudatest/Random.antt =====
-- cudatest/src/reference.cpp, `Rng`: the numbers are in range, and the generator never sticks at 0.
use native.Mathlib.Nat.{mod-lt}
use computing_test_plat.Base.{
  ℕ, zero, suc, ◌*◌, ◌/◌, ◌%◌, ◌^◌, ◌<◌, ◌≤◌, ◌≡◌, ◌≢◌, refl, if_both, ◌==◌, All, length, arith,
}
use computing_test_plat.Dtest.Agent.{bit_xor}
use computing_test_plat.Dtest.Agent.Token.{bit_xor-zero, bit_xor-lt}
use computing_test_plat.Cudatest.{u64, rng, step, next, below, draw, random_u32}

length-draw : {A : Type 0} (f : ℕ → A × ℕ) (n s : ℕ) → length (draw f n s) ≡ n
unfolding draw
length-draw f zero s = refl
length-draw f (suc n) s = omega (arith, length-draw f n (f s).1)

All-draw :
    {A : Type 0} (P : A → Type 0) (f : ℕ → A × ℕ)
    → ((s : ℕ) → P (f s).0)
    → (n s : ℕ) → All P (draw f n s)
unfolding draw
All-draw P f h zero s = tt
All-draw P f h (suc n) s = (h s, All-draw P f h n (f s).1)

below-lt : (n s : ℕ) → 0 < n → n ≤ 2 ^ 32 → (below n s).0 < n
unfolding below
below-lt n s some_value small =
    if_both (λ (r : ℕ × ℕ). r.0 < n) (n == 0) _ _ (λ e. ground (arith, e))
      (λ _.
        let r : (next s).0 / 2 ^ 32 % n < n = mod-lt ((next s).0 / 2 ^ 32) some_value in
        omega (arith, r))

-- The random numbers are as many as asked for, and below the bound, where it is not 0.
pub random_u32-lt :
    (n seed max_exclusive : ℕ)
    → 0 < max_exclusive
    → max_exclusive < 2 ^ 32
    → (length (random_u32 n seed max_exclusive) ≡ n)
      × All (λ x. x < max_exclusive) (random_u32 n seed max_exclusive)
unfolding random_u32
random_u32-lt n seed max_exclusive some_value small = (
  length-draw (below max_exclusive) n (rng seed),
  All-draw (λ x. x < max_exclusive) (below max_exclusive)
      (λ s. below-lt max_exclusive s some_value (omega arith)) n (rng seed),
)

shift_12 : (x : ℕ) → x ≡ x / 2 ^ 12 → x ≡ 0
shift_12 x h = omega (arith, h)

shift_27 : (x : ℕ) → x ≡ x / 2 ^ 27 → x ≡ 0
shift_27 x h = omega (arith, h)

xor-lt : (a b : ℕ) → bit_xor 64 a b < u64
xor-lt a b = bit_xor-lt 64 a b

xor_distinct : (a b : ℕ) → a < u64 → b < u64 → bit_xor 64 a b ≡ 0 → a ≡ b
xor_distinct a b ha hb e = bit_xor-zero 64 a b ha hb e

left_shift : (x : ℕ) → x < u64 → x ≡ x * 2 ^ 25 % u64 → x ≡ 0
left_shift x small h = omega (arith, h)

quotient_12 : (x : ℕ) → x < u64 → x / 2 ^ 12 < u64
quotient_12 x h = omega arith

quotient_27 : (x : ℕ) → x < u64 → x / 2 ^ 27 < u64
quotient_27 x h = omega arith

product-lt : (x : ℕ) → x % u64 < u64
product-lt x = omega arith

stage_12 : (s : ℕ) → s ≢ 0 → s < u64 → bit_xor 64 s (s / 2 ^ 12) ≢ 0
stage_12 s nonzero small z =
    nonzero (shift_12 s (xor_distinct s (s / 2 ^ 12) small (quotient_12 s small) z))

stage_25 : (a : ℕ) → a ≢ 0 → a < u64 → bit_xor 64 a (a * 2 ^ 25 % u64) ≢ 0
stage_25 a nonzero small z =
    nonzero
      (left_shift a small (xor_distinct a (a * 2 ^ 25 % u64) small (product-lt (a * 2 ^ 25)) z))

stage_27 : (b : ℕ) → b ≢ 0 → b < u64 → bit_xor 64 b (b / 2 ^ 27) ≢ 0
stage_27 b nonzero small z =
    nonzero (shift_27 b (xor_distinct b (b / 2 ^ 27) small (quotient_27 b small) z))

rng-ne-zero : (seed : ℕ) → seed < u64 → (rng seed ≢ 0) × (rng seed < u64)
unfolding rng
rng-ne-zero seed small =
    if_both (λ (r : ℕ). (r ≢ 0) × (r < u64)) (seed == 0) _ _
      (λ _. ((λ z. absurd (omega (arith, z))), omega arith))
      (λ given. ((λ z. ground (arith, z, given)), small))

-- Every seed of 64 bits gives a state that is a number of 64 bits and not 0, and each such state is
-- followed by one: the generator never sticks at 0.
pub step-ne-zero :
    (seed s : ℕ)
    → seed < u64
    → s ≢ 0
    → s < u64
    → (rng seed ≢ 0) × (rng seed < u64) × (step s ≢ 0) × (step s < u64)
unfolding step
step-ne-zero seed s fits nonzero small =
    let a = bit_xor 64 s (s / 2 ^ 12) in
    let b = bit_xor 64 a (a * 2 ^ 25 % u64) in
    let (seeded, in_range) = rng-ne-zero seed fits in
    let b_nonzero = stage_25 a (stage_12 s nonzero small) (xor-lt s (s / 2 ^ 12)) in
    (seeded, in_range, stage_27 b b_nonzero (xor-lt a (a * 2 ^ 25 % u64)), xor-lt b (b / 2 ^ 27))
