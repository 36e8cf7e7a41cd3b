-- ===== src/Platcheck/Parse/Laws.antt =====
-- platcheck/src/checks.cpp: the readers of /proc/meminfo, /proc/cpuinfo and the command line.
use computing_test_plat.Base.{
  ℕ, ◌^◌, ◌<◌, ◌≡◌, refl, ap, ◌∙◌, sym, List, [], ◌∷◌, ◌++◌, Option, some, true, false, ◌==◌,
  if_both, All, Any, any, arith, Text, codes, text_eq, starts_with, contains_byte,
  starts_with_sound, starts_with-append, length, drop, inl, inr, lt→ltb,
}
use computing_test_plat.Base.Int.{pos}
use computing_test_plat.Base.Ascii.{
  is_space, is_digit, digits_from, decimal, digits_from-decimal, decimal-DigitFirst,
}
use computing_test_plat.Platcheck.Parse.{
  drop_spaces, parse_long, signed, starts_with_digit, value_in, meminfo_value, split_ws, value_of,
  cmdline_value, cmdline_has, has_key, flag_in, cpu_has_flag, after_colon, has_token,
}
use computing_test_plat.Platcheck.Parse.Words.{
  Spaces, OneLine, unlines, lines-unlines, IsToken, join_spaces, split_ws-join_spaces,
}

drop-append : (p r : Text) → drop (length p) (p ++ r) ≡ r
drop-append [] r = refl
drop-append (c ∷ p) r = drop-append p r

drop_spaces-append :
    (sp s : Text) (c : ℕ) → Spaces sp → is_space c ≡ false → drop_spaces (sp ++ (c ∷ s)) ≡ c ∷ s
unfolding drop_spaces
drop_spaces-append [] s c h e = rw e refl
drop_spaces-append (d ∷ sp) s c h e = rw (h.0, drop_spaces-append sp s c h.1 e)

-- What follows a number is not a digit.
abbrev pub NoDigit : Text → Type 0
NoDigit s = starts_with_digit s ≡ false

digits_from-NoDigit : (n : ℕ) (s : Text) → NoDigit s → digits_from n s ≡ n
unfolding digits_from
digits_from-NoDigit n [] h = refl
digits_from-NoDigit n (c ∷ s) h = rw h refl

signed-digits :
    (c n : ℕ) (s : Text)
    → is_digit c ≡ true
    → digits_from 0 (c ∷ s) ≡ n
    → n < 2 ^ 63
    → signed (c ∷ s) ≡ some (pos n)
signed-digits c n s digit value small =
    let no_minus : (c == 45) ≡ false = ground arith in
    let no_plus : (c == 43) ≡ false = ground arith in
    rw (no_minus, no_plus, digit, value, lt→ltb n (2 ^ 63) small) refl

parse_long-decimal :
    (sp rest : Text) (n : ℕ)
    → Spaces sp
    → NoDigit rest
    → n < 2 ^ 63
    → parse_long (sp ++ (decimal n ++ rest)) ≡ some (pos n)
unfolding parse_long
parse_long-decimal sp rest n spaces ends small =
    let (c, r, e, digit) = decimal-DigitFirst n in
    let whole = ap (λ s. s ++ rest) e in
    let value =
      ap (digits_from 0) (sym whole)
      ∙ digits_from-decimal n rest
      ∙ digits_from-NoDigit n rest ends in
    let solid : is_space c ≡ false = ground arith in
    ap (λ s. signed (drop_spaces (sp ++ s))) whole
    ∙ ap signed (drop_spaces-append sp (r ++ rest) c spaces solid)
    ∙ signed-digits c n (r ++ rest) digit value small

value_in-skip :
    (before after : List Text) (line prefix : Text)
    → All (λ l. starts_with l prefix ≡ false) before
    → starts_with line prefix ≡ true
    → value_in (before ++ (line ∷ after)) prefix ≡ parse_long (drop (length prefix) line)
unfolding value_in
value_in-skip [] after line prefix h e = rw e refl
value_in-skip (l ∷ before) after line prefix h e =
    rw (h.0) (value_in-skip before after line prefix h.1 e)

-- Where a text of lines has one that consists of the key, a colon, white space, a number below 2^63
-- in decimal and something that does not start with a digit, and no line before it starts with the
-- key and a colon, the value of the key in the text is that number.
pub meminfo_value-decimal :
    (before after : List Text) (key sp rest : Text) (n : ℕ)
    → All OneLine (before ++ (((key ++ codes ":") ++ (sp ++ (decimal n ++ rest))) ∷ after))
    → All (λ l. starts_with l (key ++ codes ":") ≡ false) before
    → Spaces sp
    → NoDigit rest
    → n < 2 ^ 63
    → meminfo_value
        (unlines (before ++ (((key ++ codes ":") ++ (sp ++ (decimal n ++ rest))) ∷ after)))
        key
      ≡ some (pos n)
unfolding meminfo_value
meminfo_value-decimal before after key sp rest n single others spaces ends small =
    let prefix = key ++ codes ":" in
    let behind = sp ++ (decimal n ++ rest) in
    ap (λ ls. value_in ls prefix) (lines-unlines (before ++ ((prefix ++ behind) ∷ after)) single)
    ∙ value_in-skip before after (prefix ++ behind) prefix others (starts_with-append prefix behind)
    ∙ ap parse_long (drop-append prefix behind)
    ∙ parse_long-decimal sp rest n spaces ends small

-- The token that gives a key its value.
abbrev pub Assigns : Text → Text → Text → Type 0
Assigns key v tok = tok ≡ (key ++ codes "=") ++ v

value_of-Assigns :
    (toks : List Text) (key v : Text)
    → value_of toks (key ++ codes "=") ≡ some v
    → Any (Assigns key v) toks × (any (has_key key) toks ≡ true)
unfolding value_of
value_of-Assigns [] key v h = absurd (cc h)
value_of-Assigns (tok ∷ toks) key v h =
    let prefix = key ++ codes "=" in
    if_both
      (λ (o : Option Text).
        o ≡ some v → Any (Assigns key v) (tok ∷ toks) × (any (has_key key) (tok ∷ toks) ≡ true))
      (starts_with tok prefix) (some (drop (length prefix) tok)) (value_of toks prefix)
      (λ hit e.
        let (r, split) = starts_with_sound tok prefix hit in
        let same : r ≡ v =
          sym (drop-append prefix r) ∙ ap (drop (length prefix)) (sym split) ∙ some-inj e in
        (inl (split ∙ ap (λ s. prefix ++ s) same), ground (arith, hit)))
      (λ miss e.
        let (there, test) = value_of-Assigns toks key v e in (inr there, ground (arith, test)))
      h
  where
    some-inj : {a b : Text} → some a ≡ some b → a ≡ b
    some-inj e = cc e

-- A value that the command line gives for a key comes from a token of it that is the key, `=` and
-- the value, and the test for the key finds the key then.
pub cmdline_value-Assigns :
    (cmdline key v : Text)
    → cmdline_value cmdline key ≡ some v
    → Any (Assigns key v) (split_ws cmdline) × (cmdline_has cmdline key ≡ true)
unfolding cmdline_value cmdline_has
cmdline_value-Assigns cmdline key v h = value_of-Assigns (split_ws cmdline) key v h

after_colon-append :
    (s r : Text) → contains_byte 58 s ≡ false → after_colon (s ++ (58 ∷ r)) ≡ some r
unfolding after_colon contains_byte
after_colon-append [] r h = refl
after_colon-append (c ∷ s) r h =
    let here : (c == 58) ≡ false = ground (arith, h) in
    let rest : contains_byte 58 s ≡ false = ground (arith, h) in
    rw here (after_colon-append s r rest)

flag_in-skip :
    (before after : List Text) (line s flag : Text)
    → All (λ l. starts_with l (codes "flags") ≡ false) before
    → starts_with line (codes "flags") ≡ true
    → after_colon line ≡ some s
    → flag_in (before ++ (line ∷ after)) flag ≡ has_token flag s
unfolding flag_in
flag_in-skip [] after line s flag h e colon = rw (e, colon) refl
flag_in-skip (l ∷ before) after line s flag h e colon =
    rw (h.0) (flag_in-skip before after line s flag h.1 e colon)

-- In a text of lines the first that starts with `flags` decides, where the colon in it is followed
-- by tokens: the CPU has a flag exactly when the flag is one of these tokens, whatever follows.
pub cpu_has_flag-tokens :
    (before after : List Text) (mid flag : Text) (toks : List Text)
    → All OneLine (before ++ ((codes "flags" ++ (mid ++ (58 ∷ join_spaces toks))) ∷ after))
    → All (λ l. starts_with l (codes "flags") ≡ false) before
    → contains_byte 58 mid ≡ false
    → All IsToken toks
    → cpu_has_flag
        (unlines (before ++ ((codes "flags" ++ (mid ++ (58 ∷ join_spaces toks))) ∷ after)))
        flag
      ≡ any (λ tok. text_eq tok flag) toks
unfolding cpu_has_flag contains_byte
cpu_has_flag-tokens before after mid flag toks single others no_colon tokens =
    let line = codes "flags" ++ (mid ++ (58 ∷ join_spaces toks)) in
    let colon = after_colon-append (codes "flags" ++ mid) (join_spaces toks) no_colon in
    ap (λ ls. flag_in ls flag) (lines-unlines (before ++ (line ∷ after)) single)
    ∙ flag_in-skip before after line (join_spaces toks) flag others
        (starts_with-append (codes "flags") (mid ++ (58 ∷ join_spaces toks))) colon
    ∙ ap (any (λ tok. text_eq tok flag)) (split_ws-join_spaces toks tokens)
