-- ===== src/Dtest/Programs.antt =====
-- dtest/src/agent_main.cpp and dtest/src/ctl_main.cpp: the loop over the command line, which the two
-- programs share. What goes to the terminal is left out.
pub mod AgentMain
pub mod CtlMain
mod Tests
use computing_test_plat.Base.{
  ℕ, ◌^◌, ◌%◌, List, [], ◌∷◌, ◌++◌, Option, none, some, Bool, true, false, not, ◌&&◌, ◌||◌, ltb,
  leb, ◌==◌, if◌then◌else◌, Text, codes, is_empty, text_eq, starts_with, contains_byte,
}
use computing_test_plat.Base.Int.{ℤ, pos, negsuc}
use computing_test_plat.Base.Numbers.{atoi}
use computing_test_plat.Dtest.Types.{Task, AgentInfo, RunSummary}
use computing_test_plat.Dtest.Json.{Json}
use computing_test_plat.Dtest.Jobs.{parse_jobs}
use computing_test_plat.Dtest.Summary.{all_passed}
use computing_test_plat.Dtest.Policy.{Policy}
use computing_test_plat.Dtest.Agent.{AgentOptions}
use computing_test_plat.Dtest.Agent.Service.{detect_labels}
use computing_test_plat.Dtest.Executor.Connect.{Connection, connected, no_connection}

-- The program ends with an exit code, or goes on.
pub data Command (A : Type 0) : Type 0 where
  exits : ℕ → Command A
  goes_on : A → Command A

-- What an argument asks for: the usage, a setting, or a setting by the argument behind it, which may
-- be refused.
pub data Argument (A : Type 0) : Type 0 where
  usage : Argument A
  flag : (A → A) → Argument A
  valued : (Text → A → Option A) → Argument A
  unknown : Argument A

-- The loop over the arguments.
unfoldable pub arguments : {A : Type 0} → (Text → Argument A) → A → List Text → Command A
arguments read o [] = goes_on o
arguments read o (a ∷ []) = elim (read a) [
  | usage ↦ exits 0
  | flag f ↦ goes_on (f o)
  | valued f ↦ exits 2
  | unknown ↦ exits 2
]
arguments read o (a ∷ v ∷ rest) = elim (read a) [
  | usage ↦ exits 0
  | flag f ↦ arguments read (f o) (v ∷ rest)
  | valued f ↦ elim (f v o) [ none ↦ exits 2 | some o' ↦ arguments read o' rest ]
  | unknown ↦ exits 2
]

-- A positive `int`.
abbrev pub positive : ℤ → Option ℕ
positive (pos n) = if n == 0 then none else some n
positive (negsuc n) = none

abbrev pub and_then : {A B : Type 0} → Command A → (A → Command B) → Command B
and_then (exits n) f = exits n
and_then (goes_on a) f = f a

abbrev pub no_paths : List Text → Bool
no_paths [] = true
no_paths (p ∷ ps) = false
