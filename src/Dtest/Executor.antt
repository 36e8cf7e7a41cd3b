-- ===== src/Dtest/Executor.antt =====
-- dtest/src/grpc_executor.cpp, `run`. The call over the network is a parameter: what the stub gives for
-- a request. `seconds` is left out.
pub mod Laws
pub mod Connect
pub mod EndToEnd
mod Tests
use computing_test_plat.Base.{
  ℕ, ◌+◌, ◌*◌, ◌%◌, ◌^◌, List, [], ◌∷◌, ◌++◌, Option, none, some, Bool, true, false, ltb, ◌==◌,
  if◌then◌else◌, Text, codes, is_empty,
}
use computing_test_plat.Base.Int.{ℤ, pos, negsuc}
use computing_test_plat.Base.Ascii.{decimal}
use computing_test_plat.Dtest.Types.{Task, AttemptStatus, AttemptResult}
use computing_test_plat.Dtest.Rpc.{
  StatusCode, okay, cancelled, unknown, deadline_exceeded, unimplemented, internal, unavailable,
  unauthenticated, is_okay, RpcStatus, RunTaskRequest, ReplyOutcome, exited, signaled, timed_out,
  RunTaskReply,
}

abbrev pub failure : AttemptStatus → Text → AttemptResult
failure status message = record {
  status = status;
  exit_code = negsuc 0;
  out = [];
  err = [];
  message = message;
}

-- `static_cast<uint32_t>(timeout_s) * 1000u`.
unfoldable pub request : Task → RunTaskRequest
request task = record {
  argv = task.argv;
  env = task.env;
  timeout_ms = task.timeout_s % 2 ^ 32 * 1000 % 2 ^ 32;
}

-- The status of an attempt whose call failed: the agent is unusable, or it declined the task.
unfoldable pub status_of_code : StatusCode → AttemptStatus
status_of_code c = elim c [
  | unavailable ↦ AttemptStatus.agent_error
  | deadline_exceeded ↦ AttemptStatus.agent_error
  | unauthenticated ↦ AttemptStatus.agent_error
  | cancelled ↦ AttemptStatus.agent_error
  | internal ↦ AttemptStatus.agent_error
  | unimplemented ↦ AttemptStatus.agent_error
  | unknown ↦ AttemptStatus.agent_error
  | _ ↦ AttemptStatus.failed
]

abbrev signed_text : ℤ → Text
signed_text (pos n) = decimal n
signed_text (negsuc n) = 45 ∷ decimal (n + 1)

abbrev pub is_zero : ℤ → Bool
is_zero (pos n) = n == 0
is_zero (negsuc n) = false

abbrev reply_message : RunTaskReply → Text
reply_message rep =
    rep.message
    ++ (if rep.output_truncated
        then (if is_empty rep.message then [] else codes "; ") ++ codes "output truncated"
        else [])

abbrev pub reply_status : ReplyOutcome → ℤ → AttemptStatus
reply_status exited code = if is_zero code then AttemptStatus.passed else AttemptStatus.failed
reply_status signaled code = AttemptStatus.failed
reply_status timed_out code = AttemptStatus.timed_out
reply_status _ code = AttemptStatus.failed

abbrev final_message : ReplyOutcome → ℤ → Text → Text
final_message exited sig m = m
final_message timed_out sig m = m
final_message signaled sig m =
    codes "killed by signal " ++ (signed_text sig ++ (if is_empty m then [] else codes "; " ++ m))
final_message _ sig m = if is_empty m then codes "agent could not launch the command" else m

unfoldable pub result_of_reply : RunTaskReply → AttemptResult
unfolding decimal
result_of_reply rep = record {
  status = reply_status rep.outcome rep.exit_code;
  exit_code = rep.exit_code;
  out = rep.stdout_data;
  err = rep.stderr_data;
  message = final_message rep.outcome rep.term_signal (reply_message rep);
}

unfoldable pub result_of_call : RpcStatus × RunTaskReply → AttemptResult
unfolding status_of_code result_of_reply
result_of_call (st, rep) =
    if is_okay st then result_of_reply rep else failure (status_of_code st.code) st.message

-- `stub` is none where the executor never connected to the address.
unfoldable pub run_attempt :
    Text → Option (RunTaskRequest → RpcStatus × RunTaskReply) → Task → AttemptResult
unfolding result_of_call request
run_attempt address none task =
    failure AttemptStatus.agent_error (codes "no connection to " ++ address)
run_attempt address (some stub) task = result_of_call (stub (request task))
