-- ===== src/Dtest/Jobs.antt =====
-- dtest/src/jobs.cpp, `parse_jobs`. `parse` is the JSON parser: none for a text that is not JSON.
pub mod Values
pub mod OneTask
pub mod Laws
use computing_test_plat.Base.{
  ℕ, zero, suc, ◌+◌, List, [], ◌∷◌, ◌++◌, Option, none, some, Bool, true, false, ◌&&◌, ◌||◌, not,
  ltb, leb, if◌then◌else◌, Text, codes, is_empty, text_eq, contains_byte, length, any, all,
  text_ltb,
}
use computing_test_plat.Base.Ascii.{decimal}
use computing_test_plat.Dtest.Types.{Task, default_task}
use computing_test_plat.Dtest.Json.{
  Json, null, boolean, unsigned, negative, float, string, array, object, elements, entries, find,
  long_value,
}
use computing_test_plat.Dtest.Jobs.Values.{
  Checked, refused, ok, ◌>>=◌, require, required, optional, is_int_in, string_value, members, items,
  name_in, where_of, strings, read_string_array, map_insert, env_value, env_from, read_env,
  merge_env, check_keys, known_keys,
}

pub record JobFile : Type 0 where
  pub name : Text
  pub tasks : List Task

pub record JobParseResult : Type 0 where
  pub job : JobFile
  pub error : Text

unfoldable pub parse_defaults : Option Json → Checked Task
unfolding check_keys is_int_in read_env read_string_array find
parse_defaults none = ok default_task
parse_defaults (some d) = do
  es ← required (members d) (codes "'defaults' must be an object")
  _ ←
      known_keys es (codes "timeout_s" ∷ codes "retries" ∷ codes "env" ∷ codes "requires" ∷ [])
        (λ bad. codes "unknown key '" ++ (bad ++ codes "' in 'defaults'"))
  timeout ←
      optional (find es (codes "timeout_s")) 60 (λ v. is_int_in v 1 86400)
        (codes "'defaults.timeout_s' must be an integer in 1..86400")
  retries ←
      optional (find es (codes "retries")) 0 (λ v. is_int_in v 0 10)
        (codes "'defaults.retries' must be an integer in 0..10")
  env ←
      optional (find es (codes "env")) [] read_env
        (codes "'defaults.env' must be an object of string values")
  needs ←
      optional (find es (codes "requires")) [] read_string_array
        (codes "'defaults.requires' must be an array of strings")
  ok (record default_task { timeout_s = timeout; retries = retries; env = env; needs = needs })

abbrev pub optional_string : Option Json → Option Text
optional_string none = none
optional_string (some v) = string_value v

abbrev pub optional_strings : Option Json → Option (List Text)
optional_strings none = none
optional_strings (some v) = read_string_array v

abbrev pub printable : ℕ → Bool
printable c = not (ltb c 32)

-- `!argv.empty() && !argv[0].empty()`.
abbrev pub has_program : List Text → Bool
has_program [] = false
has_program (a ∷ rest) = not (is_empty a)

-- The task an entry describes, and how often it is repeated. `w` says where it stands.
unfoldable pub parse_task : Text → Task → Json → Checked (Task × ℕ)
unfolding check_keys is_int_in read_env read_string_array find merge_env
parse_task w defaults t = do
  es ← required (members t) (w ++ codes ": must be an object")
  _ ←
      known_keys es
        (codes "name"
          ∷ codes "argv"
          ∷ codes "env"
          ∷ codes "timeout_s"
          ∷ codes "retries"
          ∷ codes "requires"
          ∷ codes "repeat"
          ∷ [])
        (λ bad. w ++ (codes ": unknown key '" ++ (bad ++ codes "'")))
  name ←
      required (optional_string (find es (codes "name")))
        (w ++ codes ": 'name' must be a non-empty string")
  _ ← require (not (is_empty name)) (w ++ codes ": 'name' must be a non-empty string")
  _ ← require (all printable name) (w ++ codes ": 'name' contains control characters")
  argv ←
      required (optional_strings (find es (codes "argv")))
        (w ++ codes ": 'argv' must be a non-empty array of strings with a non-empty first element")
  _ ←
      require (has_program argv)
        (w ++ codes ": 'argv' must be a non-empty array of strings with a non-empty first element")
  timeout ←
      optional (find es (codes "timeout_s")) defaults.timeout_s (λ v. is_int_in v 1 86400)
        (w ++ codes ": 'timeout_s' must be an integer in 1..86400")
  retries ←
      optional (find es (codes "retries")) defaults.retries (λ v. is_int_in v 0 10)
        (w ++ codes ": 'retries' must be an integer in 0..10")
  own ←
      optional (find es (codes "env")) [] read_env
        (w ++ codes ": 'env' must be an object of string values")
  needs ←
      optional (find es (codes "requires")) defaults.needs read_string_array
        (w ++ codes ": 'requires' must be an array of strings")
  repeat ←
      optional (find es (codes "repeat")) 1 (λ v. is_int_in v 1 1000)
        (w ++ codes ": 'repeat' must be an integer in 1..1000")
  ok (
    record {
      name = name;
      argv = argv;
      env = merge_env defaults.env own;
      timeout_s = timeout;
      retries = retries;
      needs = needs;
    },
    repeat,
  )

abbrev pub max_tasks : ℕ
max_tasks = 100000

-- The set of the names and the tasks so far.
pub record Built : Type 0 where
  pub names : List Text
  pub tasks : List Task

-- `names.insert`, `push_back` and the limit.
unfoldable pub add_task : Text → Built → Task → Checked Built
unfolding text_eq decimal
add_task w b t =
    if any (text_eq t.name) b.names
    then refused (w ++ (codes ": duplicate task name '" ++ (t.name ++ codes "'")))
    else if ltb max_tasks (length b.tasks + 1)
    then refused (codes "too many tasks (limit " ++ (decimal max_tasks ++ codes ")"))
    else ok (record { names = t.name ∷ b.names; tasks = b.tasks ++ (t ∷ []) })

abbrev pub copy_name : Task → ℕ → ℕ → Text
copy_name t repeat i =
    if ltb 1 repeat then t.name ++ (codes "[" ++ (decimal i ++ codes "]")) else t.name

-- The copies from i on, as many as are left.
unfoldable pub add_copies : Text → Task → ℕ → ℕ → ℕ → Built → Checked Built
unfolding add_task decimal
add_copies w t repeat i zero b = ok b
add_copies w t repeat i (suc left) b =
    add_task w b (record t { name = copy_name t repeat i }) >>= λ b'.
    add_copies w t repeat (i + 1) left b'

unfoldable pub add_tasks : Task → ℕ → List Json → Built → Checked Built
unfolding parse_task add_copies where_of
add_tasks defaults idx [] b = ok b
add_tasks defaults idx (t ∷ ts) b = do
  parsed ← parse_task (where_of idx t) defaults t
  b' ← add_copies (where_of idx t) parsed.0 parsed.1 1 parsed.1 b
  add_tasks defaults (idx + 1) ts b'

abbrev pub some_items : Option Json → Option (List Json)
some_items none = none
some_items (some v) = elim (items v) [
  | none ↦ none
  | some js ↦ elim js [ [] ↦ none | j ∷ js' ↦ some (j ∷ js') ]
]

-- The tasks of a file whose name is read.
unfoldable pub parse_tasks : List (Text × Json) → Checked (List Task)
unfolding parse_defaults add_tasks find
parse_tasks es = do
  defaults ← parse_defaults (find es (codes "defaults"))
  ts ← required (some_items (find es (codes "tasks"))) (codes "'tasks' must be a non-empty array")
  b ← add_tasks defaults 0 ts (record { names = []; tasks = [] })
  ok b.tasks

abbrev default_name : Text
default_name = codes "dtest"

abbrev pub finish : Text → Checked (List Task) → JobParseResult
finish name (refused m) = record { job = record { name = name; tasks = [] }; error = m }
finish name (ok ts) = record { job = record { name = name; tasks = ts }; error = [] }

abbrev file_name : Option Json → Checked Text
file_name none = ok default_name
file_name (some v) = do
  s ← required (string_value v) (codes "'name' must be a non-empty string")
  _ ← require (not (is_empty s)) (codes "'name' must be a non-empty string")
  ok s

abbrev pub named : List (Text × Json) → Checked Text
named es = do
  _ ←
      known_keys es (codes "name" ∷ codes "defaults" ∷ codes "tasks" ∷ [])
        (λ bad. codes "unknown top-level key '" ++ (bad ++ codes "'"))
  file_name (find es (codes "name"))

abbrev pub with_name : List (Text × Json) → Checked Text → JobParseResult
with_name es (refused m) = finish default_name (refused m)
with_name es (ok name) = finish name (parse_tasks es)

abbrev pub from_members : Option (List (Text × Json)) → JobParseResult
from_members none = finish default_name (refused (codes "job file must be a JSON object"))
from_members (some es) = with_name es (named es)

abbrev pub parse_root : Option Json → JobParseResult
parse_root none = finish default_name (refused (codes "job file is not valid JSON"))
parse_root (some root) = from_members (members root)

unfoldable pub parse_jobs : (Text → Option Json) → Text → JobParseResult
unfolding parse_tasks check_keys find
parse_jobs parse text = parse_root (parse text)
