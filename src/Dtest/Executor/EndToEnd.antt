-- ===== src/Dtest/Executor/EndToEnd.antt =====
-- dtest/src/grpc_executor.cpp, dtest/src/agent_service.cpp and dtest/src/process.cpp together: an attempt
-- at a task, from the controller to the process and back.
use computing_test_plat.Base.{[], ◌+◌, ◌*◌}
use computing_test_plat.Dtest.Types.{Task}
use computing_test_plat.Dtest.Rpc.{RunTaskRequest, RunTaskReply}
use computing_test_plat.Dtest.Agent.{AgentOptions}
use computing_test_plat.Dtest.Agent.Service.{spec_of_request, reply_of_output}
use computing_test_plat.Dtest.Process
use computing_test_plat.Dtest.Process.{RunSpec, RunOutput, Host}
use computing_test_plat.Dtest.Process.Cases.{Launches}
use computing_test_plat.Dtest.Process.Timing.{Left}
use computing_test_plat.Dtest.Executor.{request}

-- What the agent does for a request, on a host where the run of the process gives `out`.
abbrev pub answer : RunOutput → RunTaskRequest → RunTaskReply
answer out req = reply_of_output out

-- The specification that the agent makes of the request for a task.
abbrev pub spec_of_task : AgentOptions → Task → RunSpec
spec_of_task o task = spec_of_request o (request task)

-- The program of the task starts.
abbrev pub Starts : Host → Task → Type 0
Starts h task =
    Launches h (record { argv = task.argv; env = []; timeout = 0; max_output_bytes = 0 })

-- The process is gone in some round before which the clock, in nanoseconds, had not passed the seconds that
-- the task may take.
abbrev pub InTime : Host → Task → Type 0
InTime h task = Left h (h.clock 0 + task.timeout_s * 1000000000) 0 1
