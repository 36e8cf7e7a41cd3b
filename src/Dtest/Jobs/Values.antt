-- ===== src/Dtest/Jobs/Values.antt =====
-- dtest/src/jobs.cpp: the readers of the values of a job file.
use computing_test_plat.Base.{
  ℕ, List, [], ◌∷◌, ◌++◌, Option, none, some, Bool, ◌||◌, ltb, if◌then◌else◌, Text, codes, is_empty,
  text_eq, contains_byte, any, text_ltb,
}
use computing_test_plat.Base.Ascii.{decimal}
use computing_test_plat.Dtest.Json.{
  Json, string, array, object, elements, entries, find, long_value,
}

-- A value, or the message the file is refused with.
pub data Checked (A : Type 0) : Type 0 where
  refused : Text → Checked A
  ok : A → Checked A

infixl 5 ◌>>=◌
unfoldable pub ◌>>=◌ : {A B : Type 0} → Checked A → (A → Checked B) → Checked B
refused m >>= f = refused m
ok a >>= f = f a

-- `if (!b) return fail(m);`
unfoldable pub require : Bool → Text → Checked Unit
require b m = if b then ok tt else refused m

abbrev pub required : {A : Type 0} → Option A → Text → Checked A
required none m = refused m
required (some a) m = ok a

-- An optional member: its default where the object does not have it.
unfoldable pub optional : {A : Type 0} → Option Json → A → (Json → Option A) → Text → Checked A
optional none default read m = ok default
optional (some v) default read m = required (read v) m

unfoldable pub is_int_in : Json → ℕ → ℕ → Option ℕ
is_int_in v lo hi = elim (long_value v) [
  | none ↦ none
  | some x ↦ if ltb x lo || ltb hi x then none else some x
]

abbrev pub string_value : Json → Option Text
string_value (string s) = some s
string_value _ = none

abbrev pub members : Json → Option (List (Text × Json))
members (object ms) = some (entries ms)
members _ = none

abbrev pub items : Json → Option (List Json)
items (array js) = some (elements js)
items _ = none

abbrev pub name_in : List (Text × Json) → Text
name_in es = elim (find es (codes "name")) [
  | none ↦ []
  | some v ↦ elim (string_value v) [ none ↦ [] | some s ↦ codes " ('" ++ (s ++ codes "')") ]
]

unfoldable pub where_of : ℕ → Json → Text
unfolding find decimal
where_of i t =
    codes "tasks["
    ++ (decimal i ++ (codes "]" ++ elim (members t) [ none ↦ [] | some es ↦ name_in es ]))

unfoldable pub strings : List Json → Option (List Text)
strings [] = some []
strings (j ∷ js) = elim (string_value j) [
  | none ↦ none
  | some s ↦ elim (strings js) [ none ↦ none | some ss ↦ some (s ∷ ss) ]
]

unfoldable pub read_string_array : Json → Option (List Text)
unfolding strings
read_string_array v = elim (items v) [ none ↦ none | some js ↦ strings js ]

-- `m[k] = v` on a `std::map`.
unfoldable pub map_insert : Text → Text → List (Text × Text) → List (Text × Text)
unfolding text_eq text_ltb
map_insert k v [] = (k, v) ∷ []
map_insert k v ((k', v') ∷ m) =
    let rest = map_insert k v m in
    if text_eq k k'
    then (k, v) ∷ m
    else if text_ltb k k'
    then (k, v) ∷ (k', v') ∷ m
    else (k', v') ∷ rest

abbrev pub env_value : Text × Json → Option Text
env_value (k, v) = if is_empty k || contains_byte 61 k then none else string_value v

unfoldable pub env_from : List (Text × Json) → List (Text × Text) → Option (List (Text × Text))
unfolding map_insert contains_byte
env_from [] out = some out
env_from (e ∷ es) out = elim (env_value e) [
  | none ↦ none
  | some s ↦ env_from es (map_insert (e.0) s out)
]

unfoldable pub read_env : Json → Option (List (Text × Text))
unfolding env_from
read_env v = elim (members v) [ none ↦ none | some es ↦ env_from es [] ]

-- `for (auto& [k, v] : own) merged[k] = v;`
unfoldable pub merge_env : List (Text × Text) → List (Text × Text) → List (Text × Text)
unfolding map_insert
merge_env merged [] = merged
merge_env merged ((k, v) ∷ own) = merge_env (map_insert k v merged) own

-- The first key that is not allowed.
unfoldable pub check_keys : List (Text × Json) → List Text → Option Text
unfolding text_eq
check_keys [] allowed = none
check_keys ((k, v) ∷ es) allowed =
    let rest = check_keys es allowed in if any (text_eq k) allowed then rest else some k

abbrev pub known_keys : List (Text × Json) → List Text → (Text → Text) → Checked Unit
known_keys es allowed message = elim (check_keys es allowed) [
  | none ↦ ok tt
  | some bad ↦ refused (message bad)
]
