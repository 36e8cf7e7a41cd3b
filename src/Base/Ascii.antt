-- ===== src/Base/Ascii.antt =====
-- The character classes of the C locale, and numbers in decimal, on bytes.
use Prim.Native.Nat.{ℕ, zero, suc, ◌+◌, ◌-◌, ◌*◌, ◌/◌, ◌%◌, ◌<◌, ◌≤◌}
use mathlib.Core.Path.{◌≡◌, refl, ◌∙◌, ap}
use mathlib.Core.List.{[], ◌∷◌, ◌++◌, append_assoc}
use mathlib.Core.Bool.{Bool, true, ◌&&◌, ◌||◌}
use native.Mathlib.Omega.{arith}
use computing_test_plat.Base.Tests.{ltb, leb, ◌==◌, if◌then◌else◌, if_both}
use computing_test_plat.Base.Bytes.{Text}

-- `std::isspace`.
abbrev pub is_space : ℕ → Bool
is_space c = (leb 9 c && leb c 13) || c == 32

-- `std::isdigit`.
abbrev pub is_digit : ℕ → Bool
is_digit c = leb 48 c && leb c 57

-- `std::tolower`.
abbrev pub lower_byte : ℕ → ℕ
lower_byte c = if leb 65 c && leb c 90 then c + 32 else c

-- The last digit stands behind what is in front of it.
unfoldable decimal_on : ℕ → ℕ → Text
decimal_on zero n = []
decimal_on (suc fuel) n =
    let front = decimal_on fuel (n / 10) in
    if ltb n 10 then (48 + n) ∷ [] else front ++ ((48 + n % 10) ∷ [])

-- `std::to_string` of a number that is not negative.
unfoldable pub decimal : ℕ → Text
unfolding decimal_on
decimal n = decimal_on (suc n) n

-- The number that the digits at the front of the text stand for, behind a number already read.
unfoldable pub digits_from : ℕ → Text → ℕ
digits_from acc [] = acc
digits_from acc (c ∷ s) =
    let rest = digits_from (acc * 10 + (c - 48)) s in if is_digit c then rest else acc

digit-digits_from :
    (acc d : ℕ) (t : Text) → d < 10 → digits_from acc ((48 + d) ∷ t) ≡ digits_from (acc * 10 + d) t
unfolding digits_from
digit-digits_from acc d t h =
    let digit : is_digit (48 + d) ≡ true = ground arith in
    let value : acc * 10 + (48 + d - 48) ≡ acc * 10 + d = omega arith in rw (digit, value)

decimal_on-digits :
    (fuel n : ℕ) (t : Text)
    → n ≤ fuel
    → digits_from 0 (decimal_on (suc fuel) n ++ t) ≡ digits_from n t
unfolding digits_from decimal_on
decimal_on-digits zero n t h =
    if_both (λ (d : Text). digits_from 0 (d ++ t) ≡ digits_from n t) (ltb n 10) _ _
      (λ small.
        digit-digits_from 0 n t (ground (arith, small)) ∙ ap (λ k. digits_from k t) (omega arith))
      (λ large. absurd (ground (arith, large)))
decimal_on-digits (suc fuel) n t h =
    if_both (λ (d : Text). digits_from 0 (d ++ t) ≡ digits_from n t) (ltb n 10) _ _
      (λ small.
        digit-digits_from 0 n t (ground (arith, small)) ∙ ap (λ k. digits_from k t) (omega arith))
      (λ large.
        ap (digits_from 0) (append_assoc (decimal_on (suc fuel) (n / 10)) ((48 + n % 10) ∷ []) t)
        ∙ decimal_on-digits fuel (n / 10) ((48 + n % 10) ∷ t) (omega arith)
        ∙ digit-digits_from (n / 10) (n % 10) t (omega arith)
        ∙ ap (λ k. digits_from k t) (omega arith))

pub digits_from-decimal : (n : ℕ) (t : Text) → digits_from 0 (decimal n ++ t) ≡ digits_from n t
unfolding decimal
digits_from-decimal n t = decimal_on-digits n n t (omega arith)

-- A number begins with a digit.
abbrev pub DigitFirst : Text → Type 0
DigitFirst s = (c : ℕ) × (r : Text) × (s ≡ c ∷ r) × (is_digit c ≡ true)

decimal_on-DigitFirst : (fuel n : ℕ) → n ≤ fuel → DigitFirst (decimal_on (suc fuel) n)
unfolding decimal_on
decimal_on-DigitFirst zero n h =
    if_both DigitFirst (ltb n 10) _ _ (λ small. (48 + n, [], refl, ground (arith, small)))
      (λ large. absurd (ground (arith, large)))
decimal_on-DigitFirst (suc fuel) n h =
    if_both DigitFirst (ltb n 10) _ _ (λ small. (48 + n, [], refl, ground (arith, small)))
      (λ large.
        let (c, r, e, digit) = decimal_on-DigitFirst fuel (n / 10) (omega arith) in
        (c, r ++ ((48 + n % 10) ∷ []), ap (λ s. s ++ ((48 + n % 10) ∷ [])) e, digit))

pub decimal-DigitFirst : (n : ℕ) → DigitFirst (decimal n)
unfolding decimal
decimal-DigitFirst n = decimal_on-DigitFirst n n (omega arith)
