-- ===== src/Platcheck/Parse.antt =====
-- platcheck/src/checks.cpp, the parsing helpers: text is a list of bytes.
pub mod Words
pub mod Laws
use computing_test_plat.Base.{
  ℕ, zero, suc, ◌+◌, ◌-◌, ◌^◌, List, [], ◌∷◌, ◌++◌, Option, none, some, Bool, true, false, ◌&&◌,
  ◌||◌, not, ltb, leb, ◌==◌, if◌then◌else◌, Text, codes, is_empty, text_eq, starts_with,
  contains_byte, map, length, drop, any,
}
use computing_test_plat.Base.Int.{ℤ, pos, negsuc}
use computing_test_plat.Base.Ascii.{is_space, is_digit, lower_byte, digits_from}

unfoldable pub drop_spaces : Text → Text
drop_spaces [] = []
drop_spaces (c ∷ s) = let rest = drop_spaces s in if is_space c then rest else c ∷ s

unfoldable pub drop_trailing : Text → Text
drop_trailing [] = []
drop_trailing (c ∷ s) =
    let rest = drop_trailing s in if is_empty rest && is_space c then [] else c ∷ rest

unfoldable pub trim : Text → Text
unfolding drop_spaces drop_trailing
trim s = drop_trailing (drop_spaces s)

unfoldable pub to_lower : Text → Text
to_lower s = map lower_byte s

abbrev pub push_word : Text → List Text → List Text
push_word [] ws = ws
push_word (c ∷ w) ws = (c ∷ w) ∷ ws

-- The token a text begins with, empty at a space, and the tokens behind it.
unfoldable pub words : Text → Text × List Text
words [] = ([], [])
words (c ∷ s) = let (w, ws) = words s in if is_space c then ([], push_word w ws) else (c ∷ w, ws)

-- The loop `while (in >> tok)`.
unfoldable pub split_ws : Text → List Text
unfolding words
split_ws s = let (w, ws) = words s in push_word w ws

abbrev pub push_byte : ℕ → List Text → List Text
push_byte c [] = (c ∷ []) ∷ []
push_byte c (l ∷ ls) = (c ∷ l) ∷ ls

-- The loop `while (std::getline(in, line))`.
unfoldable pub lines : Text → List Text
lines [] = []
lines (c ∷ s) = let rest = lines s in if c == 10 then [] ∷ rest else push_byte c rest

-- `line.substr(line.find(':') + 1)`, none without a colon.
unfoldable pub after_colon : Text → Option Text
after_colon [] = none
after_colon (c ∷ s) = let rest = after_colon s in if c == 58 then some s else rest

abbrev pub is_flags_line : Text → Bool
is_flags_line line = starts_with line (codes "flags") && contains_byte 58 line

unfoldable pub cpuinfo_has_flags_line : Text → Bool
unfolding lines starts_with contains_byte
cpuinfo_has_flags_line cpuinfo = any is_flags_line (lines cpuinfo)

abbrev pub has_token : Text → Text → Bool
has_token flag s = any (λ tok. text_eq tok flag) (split_ws s)

-- The first flags line decides.
unfoldable pub flag_in : List Text → Text → Bool
unfolding after_colon split_ws text_eq starts_with
flag_in [] flag = false
flag_in (line ∷ ls) flag =
    let rest = flag_in ls flag in
    if starts_with line (codes "flags")
    then elim (after_colon line) [ none ↦ rest | some s ↦ has_token flag s ]
    else rest

unfoldable pub cpu_has_flag : Text → Text → Bool
unfolding flag_in lines
cpu_has_flag cpuinfo flag = flag_in (lines cpuinfo) flag

abbrev pub starts_with_digit : Text → Bool
starts_with_digit [] = false
starts_with_digit (c ∷ s) = is_digit c

-- A number that fits `long`.
abbrev pub positive : Text → Option ℤ
positive s =
    if starts_with_digit s && ltb (digits_from 0 s) (2 ^ 63)
    then some (pos (digits_from 0 s))
    else none

abbrev pub negated : ℕ → ℤ
negated zero = pos 0
negated (suc n) = negsuc n

abbrev pub negative : Text → Option ℤ
negative s =
    if starts_with_digit s && leb (digits_from 0 s) (2 ^ 63)
    then some (negated (digits_from 0 s))
    else none

-- The number of a text without leading space: an optional sign and digits.
abbrev pub signed : Text → Option ℤ
signed [] = none
signed (c ∷ s) = if c == 45 then negative s else if c == 43 then positive s else positive (c ∷ s)

-- `vs >> v` into a `long`.
unfoldable pub parse_long : Text → Option ℤ
unfolding drop_spaces digits_from
parse_long s = signed (drop_spaces s)

unfoldable pub value_in : List Text → Text → Option ℤ
unfolding parse_long starts_with
value_in [] prefix = none
value_in (line ∷ ls) prefix =
    let rest = value_in ls prefix in
    if starts_with line prefix then parse_long (drop (length prefix) line) else rest

unfoldable pub meminfo_value : Text → Text → Option ℤ
unfolding value_in lines
meminfo_value meminfo key = value_in (lines meminfo) (key ++ codes ":")

abbrev pub has_key : Text → Text → Bool
has_key key tok = text_eq tok key || starts_with tok (key ++ codes "=")

unfoldable pub cmdline_has : Text → Text → Bool
unfolding split_ws text_eq starts_with
cmdline_has cmdline key = any (has_key key) (split_ws cmdline)

unfoldable pub value_of : List Text → Text → Option Text
unfolding starts_with
value_of [] prefix = none
value_of (tok ∷ toks) prefix =
    let rest = value_of toks prefix in
    if starts_with tok prefix then some (drop (length prefix) tok) else rest

unfoldable pub cmdline_value : Text → Text → Option Text
unfolding value_of split_ws
cmdline_value cmdline key = value_of (split_ws cmdline) (key ++ codes "=")
