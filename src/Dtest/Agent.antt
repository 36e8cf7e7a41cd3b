-- ===== src/Dtest/Agent.antt =====
-- dtest/src/agent_service.cpp, `RunTask`. The process is a parameter: what `run_process` gives for a
-- request. The header is none where the call has no authorization metadata.
pub mod Slots
pub mod Token
pub mod Service
use computing_test_plat.Base.{
  ℕ, zero, suc, ◌+◌, ◌*◌, ◌/◌, ◌%◌, List, [], ◌∷◌, ◌++◌, Option, none, some, Bool, true, false,
  ◌||◌, not, ltb, leb, ◌==◌, if◌then◌else◌, Text, codes, is_empty, length,
}
use computing_test_plat.Dtest.Rpc.{
  StatusCode, okay, unauthenticated, invalid_argument, permission_denied, resource_exhausted,
  is_okay, RpcStatus, RunTaskRequest, RunTaskReply,
}
use computing_test_plat.Dtest.Policy.{Policy, check_command}

pub record AgentOptions : Type 0 where
  pub token : Text
  pub policy : Policy
  pub slots : ℕ
  pub labels : List Text
  pub hostname : Text
  pub max_output_bytes : ℕ

-- `|` and `^` on the lowest bits, as many as are asked for.
unfoldable pub bit_or : ℕ → ℕ → ℕ → ℕ
bit_or zero a b = 0
bit_or (suc k) a b = (if (a % 2 + b % 2) == 0 then 0 else 1) + 2 * bit_or k (a / 2) (b / 2)

unfoldable pub bit_xor : ℕ → ℕ → ℕ → ℕ
bit_xor zero a b = 0
bit_xor (suc k) a b = (a % 2 + b % 2) % 2 + 2 * bit_xor k (a / 2) (b / 2)

-- The loop over the bytes that both texts have.
unfoldable pub diff_from : ℕ → Text → Text → ℕ
unfolding bit_or bit_xor
diff_from diff [] b = diff
diff_from diff (x ∷ a) [] = diff
diff_from diff (x ∷ a) (y ∷ b) = diff_from (bit_or 8 diff (bit_xor 8 x y)) a b

unfoldable pub constant_time_equals : Text → Text → Bool
unfolding diff_from
constant_time_equals a b = diff_from (if length a == length b then 0 else 1) a b == 0

abbrev pub fine : RpcStatus
fine = record { code = okay; message = [] }

unfoldable pub authenticate : AgentOptions → Option Text → RpcStatus
unfolding constant_time_equals
authenticate o none =
    if is_empty o.token
    then fine
    else record { code = unauthenticated; message = codes "missing authorization metadata" }
authenticate o (some got) =
    if is_empty o.token || constant_time_equals got (codes "Bearer " ++ o.token)
    then fine
    else record { code = unauthenticated; message = codes "invalid token" }

abbrev pub first_or_empty : List Text → Text
first_or_empty [] = []
first_or_empty (a ∷ rest) = a

-- The checks in front of the slot limit, for a call that is authenticated; `running` is what
-- `fetch_add` gives.
unfoldable pub admit : (Text → Text) → AgentOptions → RunTaskRequest → ℕ → RpcStatus
unfolding check_command
admit canonical o req running =
    let why = check_command canonical o.policy (first_or_empty req.argv) in
    if is_empty (first_or_empty req.argv)
    then record { code = invalid_argument; message = codes "argv must not be empty" }
    else if req.timeout_ms == 0 || ltb 86400000 req.timeout_ms
    then record { code = invalid_argument; message = codes "timeout_ms must be in 1..86400000" }
    else if not (is_empty why)
    then record { code = permission_denied; message = why }
    else if leb o.slots running
    then record { code = resource_exhausted; message = codes "agent is at its concurrency limit" }
    else fine

-- The reply only counts where the status is OK.
unfoldable pub run_task :
    (Text → Text)
    → (RunTaskRequest → RunTaskReply)
    → AgentOptions
    → Option Text
    → ℕ
    → RunTaskRequest
    → RpcStatus × RunTaskReply
unfolding authenticate admit
run_task canonical run_process o header running req =
    let who = authenticate o header in
    if is_okay who then (admit canonical o req running, run_process req) else (who, run_process req)
