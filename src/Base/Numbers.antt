-- ===== src/Base/Numbers.antt =====
-- `std::stoi`, `std::stol` and `std::atoi` on bytes: the number at the front of a text.
use Prim.Native.Nat.{ℕ, zero, suc, ◌^◌}
use mathlib.Core.List.{[], ◌∷◌}
use mathlib.Core.Bool.{Bool, true, false}
use mathlib.Core.Option.{Option, none, some}
use computing_test_plat.Base.Tests.{ltb, ◌==◌, if◌then◌else◌}
use computing_test_plat.Base.Bytes.{Text}
use computing_test_plat.Base.Int.{ℤ, pos, negsuc}
use computing_test_plat.Base.Ascii.{is_space, is_digit, digits_from}

unfoldable skip_spaces : Text → Text
skip_spaces [] = []
skip_spaces (c ∷ s) = if is_space c then skip_spaces s else c ∷ s

-- The number at the front of a text; below `half` in size.
abbrev unsigned_at : Text → Option ℕ
unsigned_at [] = none
unsigned_at (c ∷ s) = if is_digit c then some (digits_from 0 (c ∷ s)) else none

abbrev in_range : ℕ → Bool → Option ℕ → Option ℤ
in_range half minus none = none
in_range half true (some zero) = some (pos 0)
in_range half true (some (suc n)) = if ltb n half then some (negsuc n) else none
in_range half false (some n) = if ltb n half then some (pos n) else none

abbrev signed_at : ℕ → Text → Option ℤ
signed_at half [] = none
signed_at half (c ∷ s) =
    if c == 45
    then in_range half true (unsigned_at s)
    else if c == 43
    then in_range half false (unsigned_at s)
    else in_range half false (unsigned_at (c ∷ s))

unfoldable pub number_in : ℕ → Text → Option ℤ
unfolding digits_from skip_spaces
number_in half s = signed_at half (skip_spaces s)

-- 0 where the text begins with no number; a number out of range has no defined result, and is taken
-- for 0 here.
abbrev or_zero : Option ℤ → ℤ
or_zero none = pos 0
or_zero (some n) = n

unfoldable pub atoi : Text → ℤ
unfolding number_in
atoi s = or_zero (number_in (2 ^ 31) s)
