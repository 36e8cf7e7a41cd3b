-- ===== src/Dtest/Agent/Token.antt =====
-- dtest/src/agent_service.cpp, `constant_time_equals`.
use computing_test_plat.Base.{
  ℕ, zero, suc, ◌+◌, ◌*◌, ◌/◌, ◌%◌, ◌<◌, ◌≡◌, ◌↔◌, refl, [], ◌∷◌, true, ◌==◌, if◌then◌else◌,
  if_both, Text, All, length, arith,
}
use computing_test_plat.Dtest.Agent.{bit_or, bit_xor, diff_from, constant_time_equals}

-- 2 to the power.
abbrev pub limit : ℕ → ℕ
limit zero = 1
limit (suc k) = 2 * limit k

bit_or-zero : (k a b : ℕ) → a < limit k → b < limit k → bit_or k a b ≡ 0 → (a ≡ 0) × (b ≡ 0)
unfolding bit_or
bit_or-zero zero a b ha hb h = (omega arith, omega arith)
bit_or-zero (suc k) a b ha hb h =
    let rest : bit_or k (a / 2) (b / 2) ≡ 0 = ground (arith, h) in
    let low : a % 2 + b % 2 ≡ 0 = ground (arith, h) in
    let (x, y) = bit_or-zero k (a / 2) (b / 2) (omega arith) (omega arith) rest in
    (omega (arith, x, low), omega (arith, y, low))

bit_or-lt : (k a b : ℕ) → bit_or k a b < limit k
unfolding bit_or
bit_or-lt zero a b = omega arith
bit_or-lt (suc k) a b = let rest = bit_or-lt k (a / 2) (b / 2) in ground (arith, rest)

bit_or-zeros : (k : ℕ) → bit_or k 0 0 ≡ 0
unfolding bit_or
bit_or-zeros zero = refl
bit_or-zeros (suc k) = let rest = bit_or-zeros k in omega (arith, rest)

pub bit_xor-zero : (k a b : ℕ) → a < limit k → b < limit k → bit_xor k a b ≡ 0 → a ≡ b
unfolding bit_xor
bit_xor-zero zero a b ha hb h = omega arith
bit_xor-zero (suc k) a b ha hb h =
    let rest : bit_xor k (a / 2) (b / 2) ≡ 0 = omega (arith, h) in
    let same = bit_xor-zero k (a / 2) (b / 2) (omega arith) (omega arith) rest in
    omega (arith, h, same)

pub bit_xor-lt : (k a b : ℕ) → bit_xor k a b < limit k
unfolding bit_xor
bit_xor-lt zero a b = omega arith
bit_xor-lt (suc k) a b = let rest = bit_xor-lt k (a / 2) (b / 2) in omega (arith, rest)

bit_xor_self : (k a : ℕ) → bit_xor k a a ≡ 0
unfolding bit_xor
bit_xor_self zero a = refl
bit_xor_self (suc k) a = let rest = bit_xor_self k (a / 2) in omega (arith, rest)

abbrev Bytes : Text → Type 0
Bytes = All (λ c. c < 256)

-- Nothing but 0 and equal bytes leaves 0.
diff_from-zero :
    (d : ℕ) (a b : Text)
    → d < 256
    → Bytes a
    → Bytes b
    → diff_from d a b ≡ 0
    → (d ≡ 0) × (length a ≡ length b → a ≡ b)
unfolding diff_from
diff_from-zero d [] [] hd ha hb h = (h, λ _. refl)
diff_from-zero d [] (y ∷ b) hd ha hb h = (h, λ e. absurd (omega (arith, e)))
diff_from-zero d (x ∷ a) [] hd ha hb h = (h, λ e. absurd (omega (arith, e)))
diff_from-zero d (x ∷ a) (y ∷ b) hd ha hb h =
    let (low, rest) =
      diff_from-zero (bit_or 8 d (bit_xor 8 x y)) a b (bit_or-lt 8 d _) ha.1 hb.1 h in
    let (dz, xz) = bit_or-zero 8 d (bit_xor 8 x y) hd (bit_xor-lt 8 x y) low in
    let same = bit_xor-zero 8 x y ha.0 hb.0 xz in
    (dz, λ e. let tails = rest (omega (arith, e)) in cc (same, tails))

diff_from_self : (a : Text) → diff_from 0 a a ≡ 0
unfolding diff_from
diff_from_self [] = refl
diff_from_self (x ∷ a) =
    let same = bit_xor_self 8 x in let zeros = bit_or-zeros 8 in rw (same, zeros) (diff_from_self a)

-- The comparison of two texts of bytes without an early exit says that they are equal exactly when
-- they are.
pub constant_time_equals_iff :
    (a b : Text) → Bytes a → Bytes b → (constant_time_equals a b ≡ true) ↔ (a ≡ b)
unfolding constant_time_equals
constant_time_equals_iff a b ha hb = (to, λ (e : a ≡ b). rw e (itself b))
  where
    to : ((diff_from (if length a == length b then 0 else 1) a b == 0) ≡ true) → a ≡ b
    to =
        if_both (λ (d : ℕ). ((diff_from d a b == 0) ≡ true) → a ≡ b) (length a == length b) 0 1
          (λ same h.
            (diff_from-zero 0 a b (omega arith) ha hb (ground (arith, h))).1 (ground (arith, same)))
          (λ _ h. absurd (
            let one = (diff_from-zero 1 a b (omega arith) ha hb (ground (arith, h))).0 in
            omega (arith, one)))

    itself : (c : Text) → (diff_from (if length c == length c then 0 else 1) c c == 0) ≡ true
    itself c =
        let eq : (length c == length c) ≡ true = ground arith in
        let zero_left = diff_from_self c in rw eq (ground (arith, zero_left))
