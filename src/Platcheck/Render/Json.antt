-- ===== src/Platcheck/Render/Json.antt =====
-- platcheck/src/checks.cpp, `json_escape`, against a decoder of JSON strings (RFC 8259, section 7).
use computing_test_plat.Base.{
  ℕ, zero, suc, ◌+◌, ◌-◌, ◌*◌, ◌/◌, ◌%◌, ◌<◌, ◌≡◌, refl, ap, ◌∙◌, [], ◌∷◌, ◌++◌, Option, none, some,
  true, ◌&&◌, ◌||◌, ltb, leb, ◌==◌, if◌then◌else◌, if_both, Text, All, arith,
}
use computing_test_plat.Platcheck.Render.{escape_byte, json_escape, unicode_escape, hex_digit}

-- Where the decoder stands: at a character, behind a backslash, or with digits of `\u` to go.
pub data Mode : Type 0 where
  plain escaped : Mode
  hex : ℕ → ℕ → Mode

abbrev pub hex_value : ℕ → Option ℕ
hex_value c =
    if leb 48 c && leb c 57
    then some (c - 48)
    else if leb 97 c && leb c 102
    then some (c - 87)
    else if leb 65 c && leb c 70
    then some (c - 55)
    else none

-- The character a backslash and c stand for.
abbrev pub short_escape : ℕ → Option ℕ
short_escape c =
    if c == 34
    then some 34
    else if c == 92
    then some 92
    else if c == 47
    then some 47
    else if c == 98
    then some 8
    else if c == 102
    then some 12
    else if c == 110
    then some 10
    else if c == 114
    then some 13
    else if c == 116
    then some 9
    else none

abbrev pub push : ℕ → Option Text → Option Text
push c none = none
push c (some s) = some (c ∷ s)

-- The content of a JSON string, none where it is not one: a bare quote, a control character or an
-- unknown escape.
unfoldable pub json_decode : Mode → Text → Option Text
json_decode plain [] = some []
json_decode plain (c ∷ s) =
    let behind = json_decode escaped s in
    let rest = json_decode plain s in
    if c == 92 then behind else if c == 34 || ltb c 32 then none else push c rest
json_decode escaped [] = none
json_decode escaped (c ∷ s) =
    let rest = json_decode plain s in
    let digits = json_decode (hex 3 0) s in
    elim (short_escape c) [ some v ↦ push v rest | none ↦ if c == 117 then digits else none ]
json_decode (hex k v) [] = none
json_decode (hex zero v) (c ∷ s) =
    let rest = json_decode plain s in
    elim (hex_value c) [ none ↦ none | some d ↦ push (v * 16 + d) rest ]
json_decode (hex (suc k) v) (c ∷ s) = elim (hex_value c) [
  | none ↦ none
  | some d ↦ json_decode (hex k (v * 16 + d)) s
]

hex_value-hex_digit : (d : ℕ) → d < 16 → hex_value (hex_digit d) ≡ some d
hex_value-hex_digit d h = ground arith

decode-unicode :
    (c : ℕ) (t : Text)
    → c < 256
    → json_decode plain (unicode_escape c ++ t) ≡ push c (json_decode plain t)
unfolding json_decode
decode-unicode c t h =
    let high = hex_value-hex_digit (c / 16) (omega arith) in
    let low = hex_value-hex_digit (c % 16) (omega arith) in
    let whole : ((0 * 16 + 0) * 16 + c / 16) * 16 + c % 16 ≡ c = omega arith in
    rw (high, low, whole)

decode-escape_byte :
    (c : ℕ) (t : Text)
    → c < 256
    → json_decode plain (escape_byte c ++ t) ≡ push c (json_decode plain t)
unfolding json_decode escape_byte
decode-escape_byte c t h =
    let P : Text → Type 0 = λ e. json_decode plain (e ++ t) ≡ push c (json_decode plain t) in
    let at : (k : ℕ)
        → (c == k) ≡ true
        → push k (json_decode plain t) ≡ push c (json_decode plain t) =
      λ k e. ap (λ x. push x (json_decode plain t)) (ground (arith, e)) in
    if_both P (c == 34) _ _ (at 34) (λ q. if_both P (c == 92) _ _ (at 92) (λ b.
      if_both P (c == 10) _ _ (at 10) (λ _. if_both P (c == 13) _ _ (at 13) (λ _.
        if_both P (c == 9) _ _ (at 9)
          (λ _. if_both P (ltb c 32) _ _ (λ _. decode-unicode c t h) (λ p. rw (q, b, p) refl))))))

-- For any text of bytes, decoding its escaped form as the content of a JSON string gives the text
-- back: the escaped form has no bare quote or control character and loses nothing.
pub json_decode-json_escape :
    (s : Text) → All (λ c. c < 256) s → json_decode plain (json_escape s) ≡ some s
unfolding json_escape json_decode
json_decode-json_escape [] h = refl
json_decode-json_escape (c ∷ s) h =
    decode-escape_byte c (json_escape s) h.0 ∙ ap (push c) (json_decode-json_escape s h.1)
