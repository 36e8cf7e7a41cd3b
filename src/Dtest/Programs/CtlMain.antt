-- ===== src/Dtest/Programs/CtlMain.antt =====
-- dtest/src/ctl_main.cpp: the command line of the controller and its exit code.
pub mod Status
use computing_test_plat.Base.{
  ℕ, ◌^◌, ◌%◌, List, [], ◌∷◌, ◌++◌, Option, none, some, Bool, true, false, not, ◌&&◌, ◌||◌, ltb,
  leb, ◌==◌, if◌then◌else◌, Text, codes, is_empty, text_eq, starts_with, contains_byte,
}
use computing_test_plat.Base.Int.{ℤ, pos, negsuc}
use computing_test_plat.Base.Numbers.{atoi}
use computing_test_plat.Dtest.Types.{Task, AgentInfo, RunSummary}
use computing_test_plat.Dtest.Json.{Json}
use computing_test_plat.Dtest.Jobs.{parse_jobs}
use computing_test_plat.Dtest.Summary.{all_passed}
use computing_test_plat.Dtest.Policy.{Policy}
use computing_test_plat.Dtest.Agent.{AgentOptions}
use computing_test_plat.Dtest.Agent.Service.{detect_labels}
use computing_test_plat.Dtest.Executor.Connect.{Connection, connected, no_connection}
use computing_test_plat.Dtest.Programs.{
  Command, exits, goes_on, Argument, usage, flag, valued, unknown, arguments, positive, and_then,
  no_paths,
}

pub record CtlArgs : Type 0 where
  pub jobs_path : Text
  pub junit_path : Text
  pub token : Text
  pub agent_addrs : List Text
  pub connect_timeout : ℕ
  pub validate_only : Bool

abbrev pub default_ctl_args : Text → CtlArgs
default_ctl_args token = record {
  jobs_path = [];
  junit_path = [];
  token = token;
  agent_addrs = [];
  connect_timeout = 5;
  validate_only = false;
}

abbrev with_timeout : CtlArgs → Option ℕ → Option CtlArgs
with_timeout o none = none
with_timeout o (some n) = some (record o { connect_timeout = n })

unfoldable pub ctl_argument : Text → Argument CtlArgs
unfolding text_eq atoi
ctl_argument a =
    if text_eq a (codes "-h") || text_eq a (codes "--help")
    then usage
    else if text_eq a (codes "--jobs")
    then valued (λ v o. some (record o { jobs_path = v }))
    else if text_eq a (codes "--agent")
    then valued (λ v o. some (record o { agent_addrs = o.agent_addrs ++ (v ∷ []) }))
    else if text_eq a (codes "--token")
    then valued (λ v o. some (record o { token = v }))
    else if text_eq a (codes "--junit")
    then valued (λ v o. some (record o { junit_path = v }))
    else if text_eq a (codes "--connect-timeout")
    then valued (λ v o. with_timeout o (positive (atoi v)))
    else if text_eq a (codes "--validate")
    then flag (λ o. record o { validate_only = true })
    else unknown

-- The files, the JSON parser, the network and the run of the scheduler.
pub record Controller : Type 0 where
  pub read_file : Text → Option Text
  pub parse : Text → Option Json
  pub connect : Text → ℕ → Text → Connection
  pub run : List AgentInfo → List Task → RunSummary
  pub can_write : Text → Bool

abbrev pub with_live : Connection → List AgentInfo → List AgentInfo
with_live (connected info) agents = info ∷ agents
with_live (no_connection m) agents = agents

-- The agents that answered, in the order of the command line.
unfoldable pub live : Controller → CtlArgs → List Text → List AgentInfo
live c o [] = []
live c o (a ∷ as') = with_live (c.connect o.token o.connect_timeout a) (live c o as')

abbrev pub after_run : Controller → CtlArgs → RunSummary → ℕ
after_run c o s =
    if not (is_empty o.junit_path) && not (c.can_write o.junit_path)
    then 2
    else if all_passed s
    then 0
    else 1

abbrev pub run_on : Controller → CtlArgs → List Task → List AgentInfo → ℕ
run_on c o tasks [] = 1
run_on c o tasks (a ∷ agents) = after_run c o (c.run (a ∷ agents) tasks)

abbrev pub with_file : Controller → CtlArgs → Option Text → ℕ
with_file c o none = 2
with_file c o (some text) =
    let parsed = parse_jobs c.parse text in
    if not (is_empty parsed.error)
    then 2
    else if o.validate_only
    then 0
    else run_on c o parsed.job.tasks (live c o o.agent_addrs)

-- The exit code behind the command line.
unfoldable pub ctl_run : Controller → CtlArgs → ℕ
unfolding live all_passed parse_jobs
ctl_run c o =
    if is_empty o.jobs_path
    then 2
    else if no_paths o.agent_addrs && not o.validate_only
    then 2
    else with_file c o (c.read_file o.jobs_path)

abbrev pub code : Controller → Command CtlArgs → ℕ
code c (exits n) = n
code c (goes_on o) = ctl_run c o

-- The exit code of the controller, for the token of the environment.
unfoldable pub ctl_main : Controller → Text → List Text → ℕ
unfolding ctl_run arguments ctl_argument
ctl_main c env_token args = code c (arguments ctl_argument (default_ctl_args env_token) args)
