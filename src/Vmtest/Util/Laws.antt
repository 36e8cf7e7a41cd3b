-- ===== src/Vmtest/Util/Laws.antt =====
-- vmtest/src/util.cpp: the decoder against base64 of RFC 4648.
use computing_test_plat.Base.{
  ℕ, ◌+◌, ◌-◌, ◌*◌, ◌/◌, ◌%◌, ◌^◌, ◌<◌, ◌≡◌, refl, ap, ◌∙◌, [], ◌∷◌, some, false, ltb, ◌==◌,
  if◌then◌else◌, Text, All, arith,
}
use computing_test_plat.Vmtest.Util.{sextet_of, base64_loop, base64_decode}

-- The character of a number below 64.
abbrev pub sextet_char : ℕ → ℕ
sextet_char v =
    if ltb v 26
    then v + 65
    else if ltb v 52
    then v + 71
    else if ltb v 62
    then v - 4
    else if v == 62
    then 43
    else 47

-- Groups of three bytes, padded.
unfoldable pub base64_encode : Text → Text
base64_encode [] = []
base64_encode (a ∷ []) = sextet_char (a / 4) ∷ sextet_char (a % 4 * 16) ∷ 61 ∷ 61 ∷ []
base64_encode (a ∷ b ∷ []) =
    sextet_char (a / 4) ∷ sextet_char (a % 4 * 16 + b / 16) ∷ sextet_char (b % 16 * 4) ∷ 61 ∷ []
base64_encode (a ∷ b ∷ c ∷ s) =
    sextet_char (a / 4)
    ∷ sextet_char (a % 4 * 16 + b / 16)
    ∷ sextet_char (b % 16 * 4 + c / 64)
    ∷ sextet_char (c % 64)
    ∷ base64_encode s

sextet_of-sextet_char : (v : ℕ) → v < 64 → sextet_of (sextet_char v) ≡ some v
sextet_of-sextet_char v h = ground arith

no_padding : (v : ℕ) → v < 64 → (sextet_char v == 61) ≡ false
no_padding v h = ground arith

abbrev shifted : ℕ → ℕ → ℕ
shifted val v = (val * 64 + v) % 2 ^ 24

-- One character of a group, by the bits at hand before it.
take_first :
    (val v : ℕ) (s : Text)
    → v < 64
    → base64_loop val 0 (sextet_char v ∷ s) ≡ base64_loop (shifted val v) 6 s
unfolding base64_loop
take_first val v s h = rw (no_padding v h, sextet_of-sextet_char v h) refl

take_second :
    (val v : ℕ) (s : Text)
    → v < 64
    → base64_loop val 6 (sextet_char v ∷ s)
      ≡ shifted val v / 2 ^ 4 % 256 ∷ base64_loop (shifted val v) 4 s
unfolding base64_loop
take_second val v s h = rw (no_padding v h, sextet_of-sextet_char v h) refl

take_third :
    (val v : ℕ) (s : Text)
    → v < 64
    → base64_loop val 4 (sextet_char v ∷ s)
      ≡ shifted val v / 2 ^ 2 % 256 ∷ base64_loop (shifted val v) 2 s
unfolding base64_loop
take_third val v s h = rw (no_padding v h, sextet_of-sextet_char v h) refl

take_fourth :
    (val v : ℕ) (s : Text)
    → v < 64
    → base64_loop val 2 (sextet_char v ∷ s)
      ≡ shifted val v / 2 ^ 0 % 256 ∷ base64_loop (shifted val v) 0 s
unfolding base64_loop
take_fourth val v s h = rw (no_padding v h, sextet_of-sextet_char v h) refl

at_padding : (val bits : ℕ) (s : Text) → base64_loop val bits (61 ∷ s) ≡ []
unfolding base64_loop
at_padding val bits s = refl

first_byte :
    (val a v : ℕ)
    → a < 256
    → v < 16
    → shifted (shifted val (a / 4)) (a % 4 * 16 + v) / 2 ^ 4 % 256 ≡ a
first_byte val a v ha hv = omega arith

second_byte :
    (val b u v : ℕ)
    → b < 256
    → u < 4
    → v < 4
    → shifted (shifted val (u * 16 + b / 16)) (b % 16 * 4 + v) / 2 ^ 2 % 256 ≡ b
second_byte val b u v hb hu hv = omega arith

third_byte :
    (val c u : ℕ)
    → c < 256
    → u < 16
    → shifted (shifted val (u * 4 + c / 64)) (c % 64) / 2 ^ 0 % 256 ≡ c
third_byte val c u hc hu = omega arith

lone_byte : (val a : ℕ) → a < 256 → shifted (shifted val (a / 4)) (a % 4 * 16) / 2 ^ 4 % 256 ≡ a
lone_byte val a ha = omega arith

last_byte :
    (val b u : ℕ)
    → b < 256
    → u < 4
    → shifted (shifted val (u * 16 + b / 16)) (b % 16 * 4) / 2 ^ 2 % 256 ≡ b
last_byte val b u hb hu = omega arith

loop-base64_encode :
    (val : ℕ) (s : Text) → All (λ c. c < 256) s → base64_loop val 0 (base64_encode s) ≡ s
unfolding base64_encode base64_loop
loop-base64_encode val [] h = refl
loop-base64_encode val (a ∷ []) h =
    let v1 = shifted val (a / 4) in
    let v2 = shifted v1 (a % 4 * 16) in
    let s2 = sextet_char (a % 4 * 16) ∷ 61 ∷ 61 ∷ [] in
    take_first val (a / 4) s2 (omega (arith, h.0))
    ∙ take_second v1 (a % 4 * 16) (61 ∷ 61 ∷ []) (omega arith)
    ∙ ap (λ x. x ∷ base64_loop v2 4 (61 ∷ 61 ∷ [])) (lone_byte val a h.0)
loop-base64_encode val (a ∷ b ∷ []) h =
    let v1 = shifted val (a / 4) in
    let v2 = shifted v1 (a % 4 * 16 + b / 16) in
    let v3 = shifted v2 (b % 16 * 4) in
    let s3 = sextet_char (b % 16 * 4) ∷ 61 ∷ [] in
    let s2 = sextet_char (a % 4 * 16 + b / 16) ∷ s3 in
    take_first val (a / 4) s2 (omega (arith, h.0))
    ∙ take_second v1 (a % 4 * 16 + b / 16) s3 (omega (arith, h.1.0))
    ∙ ap (λ t. v2 / 2 ^ 4 % 256 ∷ t) (take_third v2 (b % 16 * 4) (61 ∷ []) (omega arith))
    ∙ ap (λ x. x ∷ v3 / 2 ^ 2 % 256 ∷ []) (first_byte val a (b / 16) h.0 (omega (arith, h.1.0)))
    ∙ ap (λ x. a ∷ x ∷ []) (last_byte v1 b (a % 4) h.1.0 (omega arith))
loop-base64_encode val (a ∷ b ∷ c ∷ s) h =
    let v1 = shifted val (a / 4) in
    let v2 = shifted v1 (a % 4 * 16 + b / 16) in
    let v3 = shifted v2 (b % 16 * 4 + c / 64) in
    let v4 = shifted v3 (c % 64) in
    let s4 = sextet_char (c % 64) ∷ base64_encode s in
    let s3 = sextet_char (b % 16 * 4 + c / 64) ∷ s4 in
    let s2 = sextet_char (a % 4 * 16 + b / 16) ∷ s3 in
    take_first val (a / 4) s2 (omega (arith, h.0))
    ∙ take_second v1 (a % 4 * 16 + b / 16) s3 (omega (arith, h.1.0))
    ∙ ap (λ t. v2 / 2 ^ 4 % 256 ∷ t)
        (take_third v2 (b % 16 * 4 + c / 64) s4 (omega (arith, h.1.1.0)))
    ∙ ap (λ t. v2 / 2 ^ 4 % 256 ∷ v3 / 2 ^ 2 % 256 ∷ t)
        (take_fourth v3 (c % 64) (base64_encode s) (omega arith))
    ∙ ap (λ x. x ∷ v3 / 2 ^ 2 % 256 ∷ v4 / 2 ^ 0 % 256 ∷ base64_loop v4 0 (base64_encode s))
        (first_byte val a (b / 16) h.0 (omega (arith, h.1.0)))
    ∙ ap (λ x. a ∷ x ∷ v4 / 2 ^ 0 % 256 ∷ base64_loop v4 0 (base64_encode s))
        (second_byte v1 b (a % 4) (c / 64) h.1.0 (omega arith) (omega (arith, h.1.1.0)))
    ∙ ap (λ x. a ∷ b ∷ x ∷ base64_loop v4 0 (base64_encode s))
        (third_byte v2 c (b % 16) h.1.1.0 (omega arith))
    ∙ ap (λ t. a ∷ b ∷ c ∷ t) (loop-base64_encode v4 s h.1.1.1)

-- For any bytes, decoding their base64 form of RFC 4648, padding included, gives them back.
pub base64_decode-base64_encode :
    (s : Text) → All (λ c. c < 256) s → base64_decode (base64_encode s) ≡ s
unfolding base64_decode
base64_decode-base64_encode s h = loop-base64_encode 0 s h
