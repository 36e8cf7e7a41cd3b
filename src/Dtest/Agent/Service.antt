-- ===== src/Dtest/Agent/Service.antt =====
-- dtest/src/agent_service.cpp: the constructor, `detect_labels`, `GetInfo`, and what `RunTask` gives to
-- and takes from the process runner. What the host says of itself is a parameter.
use computing_test_plat.Base.{
  ℕ, List, [], ◌∷◌, ◌++◌, Option, none, some, Bool, ◌==◌, if◌then◌else◌, Text, codes, is_empty,
}
use computing_test_plat.Dtest.Agent.{AgentOptions, authenticate}
use computing_test_plat.Dtest.Jobs.Values.{merge_env}
use computing_test_plat.Dtest.Process
use computing_test_plat.Dtest.Process.{RunSpec, RunOutput, RunOutcome}
use computing_test_plat.Dtest.Rpc.{
  RpcStatus, InfoReply, RunTaskRequest, RunTaskReply, ReplyOutcome, exited, signaled, timed_out,
  launch_failed,
}

-- The machine that `uname` names, none where it fails, and whether the KVM device can be used.
unfoldable pub detect_labels : Option Text → Bool → List Text
detect_labels machine kvm =
    codes "os=linux"
    ∷ (elim machine [ none ↦ [] | some m ↦ (codes "arch=" ++ m) ∷ [] ]
        ++ (if kvm then codes "kvm=true" ∷ [] else []))

abbrev own_name : Option Text → Text
own_name none = []
own_name (some name) = name

-- The name of the host is none where `gethostname` fails.
unfoldable pub agent_service : Option Text → AgentOptions → AgentOptions
agent_service host o = record o {
  slots = if o.slots == 0 then 1 else o.slots;
  hostname = if is_empty o.hostname then own_name host else o.hostname;
}

-- The reply only counts where the status is OK.
unfoldable pub get_info : ℕ → AgentOptions → Option Text → RpcStatus × InfoReply
get_info cpus o header = (
  authenticate o header,
  record {
    hostname = o.hostname;
    cpus = cpus;
    slots = o.slots;
    labels = o.labels;
    version = codes "0.1.0";
  },
)

unfoldable pub spec_of_request : AgentOptions → RunTaskRequest → RunSpec
unfolding merge_env
spec_of_request o req = record {
  argv = req.argv;
  env = merge_env [] req.env;
  timeout = req.timeout_ms;
  max_output_bytes = o.max_output_bytes;
}

abbrev pub reply_outcome : RunOutcome → ReplyOutcome
reply_outcome Process.exited = exited
reply_outcome Process.signaled = signaled
reply_outcome Process.timed_out = timed_out
reply_outcome Process.launch_failed = launch_failed

unfoldable pub reply_of_output : RunOutput → RunTaskReply
reply_of_output out = record {
  outcome = reply_outcome out.outcome;
  exit_code = out.exit_code;
  term_signal = out.term_signal;
  stdout_data = out.out;
  stderr_data = out.err;
  output_truncated = out.truncated;
  message = out.message;
}
