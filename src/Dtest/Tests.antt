-- ===== src/Dtest/Tests.antt =====
-- dtest/ at small inputs.
use computing_test_plat.Base.{
  ◌+◌, ◌≤◌, ◌<◌, ◌≡◌, ◌↔◌, List, [], ◌∷◌, true, false, some, All, Any, Text, codes, arith, ◌≢◌,
  refl, ◌^◌,
}
use computing_test_plat.Base.Int.{pos}
use computing_test_plat.Dtest.Types.{
  Task, AttemptStatus, AttemptRecord, FinalStatus, TaskOutcome, RunSummary, default_task,
}
use computing_test_plat.Dtest.Labels.{labels_satisfy, Provides, labels_satisfy_iff}
use computing_test_plat.Dtest.Policy.{Policy, check_command}
use computing_test_plat.Dtest.Policy.Laws.{Allowed, check_command_iff}
use computing_test_plat.Dtest.Json.{
  Json, object, array, string, member, no_member, element, no_more,
}
use computing_test_plat.Dtest.Jobs.{parse_jobs}
use computing_test_plat.Dtest.Jobs.Laws.{Runnable, parse_jobs-Runnable}
use computing_test_plat.Dtest.Rpc.{RunTaskRequest, RunTaskReply, exited}
use computing_test_plat.Dtest.Agent.{AgentOptions, constant_time_equals}
use computing_test_plat.Dtest.Agent.Slots.{
  at_start, entered, enter, idle, unsigned_mod, running-le-slots,
}
use computing_test_plat.Dtest.Agent.Token.{constant_time_equals_iff}
use computing_test_plat.Dtest.Executor.{request}
use computing_test_plat.Dtest.Executor.Laws.{attempt, Admitted, Succeeded, attempt_iff}
use computing_test_plat.Dtest.Jobs.OneTask.{WellFormed}

abbrev labels : List Text
labels = codes "gpu=a100" ∷ codes "kvm" ∷ []

abbrev wanted : List Text
wanted = codes "gpu" ∷ codes "kvm" ∷ []

labels_satisfy_iff_example :
    (labels_satisfy labels wanted ≡ true) ↔ All (λ req. Any (Provides req) labels) wanted
labels_satisfy_iff_example = labels_satisfy_iff labels wanted

abbrev attempt_record : AttemptStatus → AttemptRecord
attempt_record status = record {
  agent = codes "a:1";
  result = record { status = status; exit_code = pos 0; out = []; err = []; message = [] };
}

-- A task that failed once and passed then.
abbrev shaky : TaskOutcome
shaky = record {
  task = default_task;
  status = FinalStatus.passed;
  attempts = attempt_record AttemptStatus.failed ∷ attempt_record AttemptStatus.passed ∷ [];
  message = [];
}

abbrev run_summary : RunSummary
run_summary = record { outcomes = shaky ∷ []; dead_agents = [] }

abbrev policy : Policy
policy = record { allow = codes "/opt/tests/" ∷ codes "/bin/true" ∷ []; allow_any = false }

check_command_iff_example :
    (check_command (λ p. p) policy (codes "/opt/tests/run") ≡ [])
    ↔ Allowed (λ p. p) policy (codes "/opt/tests/run")
check_command_iff_example = check_command_iff (λ p. p) policy (codes "/opt/tests/run")

-- A job file with one task.
abbrev job : Json
job = object (
    member (codes "tasks")
      (array (
        element
          (object (
            member (codes "argv") (array (element (string (codes "/bin/true")) no_more))
              (member (codes "name") (string (codes "t")) no_member)))
          no_more))
      no_member)

parse_jobs-Runnable_example : Runnable (parse_jobs (λ s. some job) []).job.tasks
parse_jobs-Runnable_example = parse_jobs-Runnable (λ s. some job) []

abbrev two_lines : Text
two_lines = 65 ∷ 10 ∷ 66 ∷ 10 ∷ []

abbrev agent_options : AgentOptions
agent_options = record {
  token = [];
  policy = policy;
  slots = 2;
  labels = [];
  hostname = codes "lab1";
  max_output_bytes = 2 ^ 20;
}

abbrev runnable : Task
runnable = record default_task { name = codes "t"; argv = codes "/opt/tests/run" ∷ [] }

runnable-WellFormed : WellFormed runnable
runnable-WellFormed = record {
  limits = record {
    timeout_low = omega arith;
    timeout_high = omega arith;
    few_retries = omega arith;
  };
  name_given = λ e. absurd (cc e);
  program_given = refl;
}

abbrev exit_zero : RunTaskRequest → RunTaskReply
exit_zero req = record {
  outcome = exited;
  exit_code = pos 0;
  term_signal = pos 0;
  stdout_data = [];
  stderr_data = [];
  output_truncated = false;
  message = [];
}

attempt_iff_example :
    (((attempt (λ p. p) exit_zero agent_options refl 1 runnable runnable-WellFormed).status
        ≡ AttemptStatus.passed)
      ↔ (Admitted (λ p. p) exit_zero agent_options refl 1 runnable runnable-WellFormed
          × Succeeded (exit_zero (request runnable))))
    × ((attempt (λ p. p) exit_zero agent_options refl 1 runnable runnable-WellFormed).status
        ≢ AttemptStatus.agent_error)
attempt_iff_example =
    attempt_iff (λ p. p) exit_zero agent_options refl 1 runnable runnable-WellFormed

room_for_two : (enter 1 idle).running + (enter 1 idle).refused + 1 < unsigned_mod
unfolding enter
room_for_two = omega arith

-- Two calls at an agent with one slot.
running-le-slots_example : (enter 1 (enter 1 idle)).running ≤ 1
running-le-slots_example =
    running-le-slots 1 (enter 1 (enter 1 idle))
      (entered {c = enter 1 idle} (entered {c = idle} at_start (omega arith)) room_for_two)

abbrev token : Text
token = codes "ab"

abbrev other_token : Text
other_token = codes "ac"

constant_time_equals_iff_example :
    (constant_time_equals token other_token ≡ true) ↔ (token ≡ other_token)
constant_time_equals_iff_example =
    constant_time_equals_iff token other_token (omega arith, (omega arith, tt))
      (omega arith, (omega arith, tt))
