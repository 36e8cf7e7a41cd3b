-- ===== src/Dtest/Rpc.antt =====
-- dtest/proto/dtest.proto and the status codes of gRPC: what goes between a controller and an agent.
use computing_test_plat.Base.{ℕ, Bool, true, false, List, Text}
use computing_test_plat.Base.Int.{ℤ}

-- `grpc::StatusCode`.
pub data StatusCode : Type 0 where
  okay cancelled unknown invalid_argument deadline_exceeded not_found : StatusCode
  already_exists permission_denied resource_exhausted failed_precondition : StatusCode
  aborted out_of_range unimplemented internal unavailable data_loss : StatusCode
  unauthenticated : StatusCode

pub record RpcStatus : Type 0 where
  pub code : StatusCode
  pub message : Text

-- `st.ok()`.
abbrev pub is_okay : RpcStatus → Bool
is_okay s = elim s.code [ okay ↦ true | _ ↦ false ]

pub record RunTaskRequest : Type 0 where
  pub argv : List Text
  pub env : List (Text × Text)
  pub timeout_ms : ℕ

pub data ReplyOutcome : Type 0 where
  unspecified exited signaled timed_out launch_failed : ReplyOutcome

pub record RunTaskReply : Type 0 where
  pub outcome : ReplyOutcome
  pub exit_code : ℤ
  pub term_signal : ℤ
  pub stdout_data : Text
  pub stderr_data : Text
  pub output_truncated : Bool
  pub message : Text

pub record InfoReply : Type 0 where
  pub hostname : Text
  pub cpus : ℕ
  pub slots : ℕ
  pub labels : List Text
  pub version : Text
