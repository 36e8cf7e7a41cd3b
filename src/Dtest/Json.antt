-- ===== src/Dtest/Json.antt =====
-- The values that `nlohmann::json::parse` gives, as dtest/src/jobs.cpp looks at them: an object has
-- its members in the order of the keys, each key once.
use computing_test_plat.Base.{
  ℕ, ◌^◌, List, [], ◌∷◌, Option, none, some, Bool, ltb, if◌then◌else◌, Text, text_eq,
}

mutual
  pub data Json : Type 0 where
    null : Json
    boolean : Bool → Json
    unsigned : ℕ → Json
    negative : ℕ → Json
    float : Json
    string : Text → Json
    array : Jsons → Json
    object : Members → Json

  pub data Jsons : Type 0 where
    no_more : Jsons
    element : Json → Jsons → Jsons

  pub data Members : Type 0 where
    no_member : Members
    member : Text → Json → Members → Members

abbrev pub elements : Jsons → List Json
elements no_more = []
elements (element j js) = j ∷ elements js

abbrev pub entries : Members → List (Text × Json)
entries no_member = []
entries (member k v ms) = (k, v) ∷ entries ms

-- `contains(key)` and `[key]`.
unfoldable pub find : List (Text × Json) → Text → Option Json
unfolding text_eq
find [] key = none
find ((k, v) ∷ es) key = let rest = find es key in if text_eq k key then some v else rest

-- The number of an integer value as `get<long>()` gives it, none below 0: an unsigned value from 2^63
-- on turns negative.
abbrev pub long_value : Json → Option ℕ
long_value (unsigned n) = if ltb n (2 ^ 63) then some n else none
long_value _ = none
