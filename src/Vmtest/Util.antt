-- ===== src/Vmtest/Util.antt =====
-- vmtest/src/util.cpp: base64 and escaping.
pub mod Laws
use computing_test_plat.Base.{
  ℕ, zero, suc, ◌+◌, ◌-◌, ◌*◌, ◌/◌, ◌%◌, ◌^◌, List, [], ◌∷◌, ◌++◌, Option, none, some, Bool, true,
  false, ◌&&◌, ltb, leb, ◌==◌, if◌then◌else◌, Text, codes,
}

-- `kChars.find(c)`.
abbrev pub sextet_of : ℕ → Option ℕ
sextet_of c =
    if leb 65 c && leb c 90
    then some (c - 65)
    else if leb 97 c && leb c 122
    then some (c - 71)
    else if leb 48 c && leb c 57
    then some (c + 4)
    else if c == 43
    then some 62
    else if c == 47
    then some 63
    else none

-- The loop: `val`, and the bits at hand, `bits + 8` of the source. A byte is put out from 8 on.
unfoldable pub base64_loop : ℕ → ℕ → Text → Text
base64_loop val bits [] = []
base64_loop val bits (c ∷ s) = if c == 61 then [] else elim (sextet_of c) [
  | none ↦ base64_loop val bits s
  | some v ↦
      let val' = (val * 64 + v) % 2 ^ 24 in
      let more = base64_loop val' (bits + 6) s in
      if leb 8 (bits + 6)
      then val' / 2 ^ (bits + 6 - 8) % 256 ∷ base64_loop val' (bits + 6 - 8) s
      else more
]

unfoldable pub base64_decode : Text → Text
unfolding base64_loop
base64_decode s = base64_loop 0 0 s

unfoldable pub escape_byte : ℕ → Text
escape_byte c =
    if c == 38
    then codes "&amp;"
    else if c == 60
    then codes "&lt;"
    else if c == 62
    then codes "&gt;"
    else if c == 34
    then codes "&quot;"
    else if c == 39
    then codes "&apos;"
    else c ∷ []

unfoldable pub xml_escape : Text → Text
unfolding escape_byte
xml_escape [] = []
xml_escape (c ∷ s) = escape_byte c ++ xml_escape s
