-- ===== src/Dtest/Programs/AgentMain.antt =====
-- dtest/src/agent_main.cpp: the command line of the agent and the conditions under which it starts.
pub mod Guarded
use computing_test_plat.Base.{
  ℕ, ◌^◌, ◌%◌, List, [], ◌∷◌, ◌++◌, Option, none, some, Bool, true, false, not, ◌&&◌, ◌||◌, ltb,
  leb, ◌==◌, if◌then◌else◌, Text, codes, is_empty, text_eq, starts_with, contains_byte,
}
use computing_test_plat.Base.Int.{ℤ, pos, negsuc}
use computing_test_plat.Base.Numbers.{atoi}
use computing_test_plat.Dtest.Types.{Task, AgentInfo, RunSummary}
use computing_test_plat.Dtest.Json.{Json}
use computing_test_plat.Dtest.Jobs.{parse_jobs}
use computing_test_plat.Dtest.Summary.{all_passed}
use computing_test_plat.Dtest.Policy.{Policy}
use computing_test_plat.Dtest.Agent.{AgentOptions}
use computing_test_plat.Dtest.Agent.Service.{detect_labels}
use computing_test_plat.Dtest.Executor.Connect.{Connection, connected, no_connection}
use computing_test_plat.Dtest.Programs.{
  Command, exits, goes_on, Argument, usage, flag, valued, unknown, arguments, positive, and_then,
  no_paths,
}

pub record AgentArgs : Type 0 where
  pub listen : Text
  pub token : Text
  pub allow : List Text
  pub allow_any : Bool
  pub no_auth : Bool
  pub slots : ℕ
  pub extra_labels : List Text

-- The token of the environment, empty where there is none.
abbrev pub default_agent_args : Text → AgentArgs
default_agent_args token = record {
  listen = codes "127.0.0.1:7001";
  token = token;
  allow = [];
  allow_any = false;
  no_auth = false;
  slots = 0;
  extra_labels = [];
}

abbrev with_slots : AgentArgs → Option ℕ → Option AgentArgs
with_slots o none = none
with_slots o (some n) = some (record o { slots = n })

unfoldable pub agent_argument : Text → Argument AgentArgs
unfolding text_eq contains_byte atoi
agent_argument a =
    if text_eq a (codes "-h") || text_eq a (codes "--help")
    then usage
    else if text_eq a (codes "--listen")
    then valued (λ v o. some (record o { listen = v }))
    else if text_eq a (codes "--token")
    then valued (λ v o. some (record o { token = v }))
    else if text_eq a (codes "--no-auth")
    then flag (λ o. record o { no_auth = true })
    else if text_eq a (codes "--allow")
    then valued (λ v o. some (record o { allow = o.allow ++ (v ∷ []) }))
    else if text_eq a (codes "--allow-any")
    then flag (λ o. record o { allow_any = true })
    else if text_eq a (codes "--slots")
    then valued (λ v o. with_slots o (positive (atoi v)))
    else if text_eq a (codes "--label")
    then valued (λ v o.
      if contains_byte 61 v
      then some (record o { extra_labels = o.extra_labels ++ (v ∷ []) })
      else none)
    else unknown

-- The options of the service, on a host with so many processors and such labels.
unfoldable pub agent_options : ℕ → List Text → AgentArgs → Command AgentOptions
agent_options cpus labels a =
    if is_empty a.token && not a.no_auth
    then exits 2
    else if not (is_empty a.token) && a.no_auth
    then exits 2
    else if no_paths a.allow && not a.allow_any
    then exits 2
    else goes_on (record {
      token = a.token;
      policy = record { allow = a.allow; allow_any = a.allow_any };
      slots = if a.slots == 0 then (if cpus == 0 then 1 else cpus) else a.slots;
      labels = labels ++ a.extra_labels;
      hostname = [];
      max_output_bytes = 2 ^ 20;
    })

unfoldable pub is_loopback : Text → Bool
unfolding starts_with
is_loopback addr =
    starts_with addr (codes "127.")
    || (starts_with addr (codes "localhost:") || starts_with addr (codes "[::1]:"))

-- What the agent serves with, or the exit code that it ends with at once.
unfoldable pub agent_start : ℕ → Option Text → Bool → Text → List Text → Command AgentOptions
unfolding arguments agent_argument agent_options detect_labels
agent_start cpus machine kvm env_token args =
    and_then (arguments agent_argument (default_agent_args env_token) args)
      (agent_options cpus (detect_labels machine kvm))
