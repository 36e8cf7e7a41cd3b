-- ===== src/Dtest/Executor/Tests.antt =====
-- dtest/src/grpc_executor.cpp, with the agent and its process, at small inputs.
use computing_test_plat.Base.{
  ◌*◌, ◌≡◌, ◌⊎◌, List, [], ◌∷◌, ◌++◌, none, some, false, ◌==◌, Text, codes, ◌^◌, arith, Option,
}
use computing_test_plat.Base.Int.{pos}
use computing_test_plat.Dtest.Types.{Task, default_task}
use computing_test_plat.Dtest.Policy.{Policy}
use computing_test_plat.Dtest.Agent.{AgentOptions}
use computing_test_plat.Dtest.Agent.Service.{agent_service, get_info}
use computing_test_plat.Dtest.Process.{
  RunOutput, exited, short, with_code, out_pipe, err_pipe, exec_pipe, Call, piped, sigkill, reaped,
  Host, no_data,
}
use computing_test_plat.Dtest.Process.Launch.{after_fork, closed_outputs}
use computing_test_plat.Dtest.Executor.Connect.{
  authorization, connect, connected, no_connection, Accepts, connect-get_info, over, Undelivered,
}
use computing_test_plat.Dtest.Rpc.{RpcStatus}

abbrev policy : Policy
policy = record { allow = codes "/opt/tests/" ∷ []; allow_any = false }

abbrev options : Text → AgentOptions
options token = record {
  token = token;
  policy = policy;
  slots = 2;
  labels = codes "kvm=true" ∷ [];
  hostname = codes "lab1";
  max_output_bytes = 2 ^ 20;
}

abbrev token : Text
token = codes "ab"

abbrev delivers : Option RpcStatus
delivers = none

-- A controller without the token, over a network that delivers.
connect-get_info_example :
    let c = connect (codes "a:1") (
      over delivers
        (get_info 4 (agent_service none (options token)) (authorization (codes "b")))) in
    ((delivers ≡ none)
      × Accepts (options token) (codes "b")
      × (c
          ≡ connected (record {
            address = codes "a:1";
            hostname = codes "lab1";
            slots = 2;
            labels = codes "kvm=true" ∷ [];
          })))
    ⊎ (((delivers ≡ none)
          × (¬ Accepts (options token) (codes "b"))
          × (m : Text) × (c ≡ no_connection (codes "rejected: " ++ m)))
        ⊎ ((st : RpcStatus) × (delivers ≡ some st) × Undelivered st c))
unfolding agent_service
connect-get_info_example =
    connect-get_info (codes "a:1") (codes "b") none 4 (options token) delivers
      ((omega arith, omega arith), tt) (omega arith, (omega arith, tt)) tt

abbrev task : Task
task = record default_task { name = codes "t"; argv = codes "/opt/tests/run" ∷ [] }

-- A command that is gone in the second round.
abbrev host : Host
host = record {
  clock = λ n. n * 2000000000;
  pipe_errno = λ _. none;
  fork_errno = none;
  strerror = λ _. [];
  exec_reads = short ∷ [];
  out_reads = λ n. no_data ∷ [];
  err_reads = λ n. no_data ∷ [];
  gone = λ n. n == 1;
  last_out = no_data ∷ [];
  last_err = no_data ∷ [];
  status = with_code 0;
}

abbrev output : RunOutput
output = record {
  outcome = exited;
  exit_code = pos 0;
  term_signal = pos 0;
  out = [];
  err = [];
  truncated = false;
  duration = 4000;
  message = [];
}

abbrev calls : List Call
calls =
    piped out_pipe
    ∷ piped err_pipe
    ∷ piped exec_pipe
    ∷ (after_fork ++ (sigkill ∷ reaped ∷ closed_outputs))
