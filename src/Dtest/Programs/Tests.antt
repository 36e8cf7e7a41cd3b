-- ===== src/Dtest/Programs/Tests.antt =====
-- dtest/src/agent_main.cpp and dtest/src/ctl_main.cpp at small inputs.
use computing_test_plat.Base.{◌≡◌, ◌^◌, refl, List, [], ◌∷◌, none, true, false, Text, codes}
use computing_test_plat.Dtest.Agent.{AgentOptions}
use computing_test_plat.Dtest.Programs.{goes_on, arguments}
use computing_test_plat.Dtest.Programs.AgentMain.{
  AgentArgs, default_agent_args, agent_argument, agent_start,
}
use computing_test_plat.Dtest.Programs.AgentMain.Guarded.{Guards, agent_start-Guards}

abbrev command_line : List Text
command_line = codes "--no-auth" ∷ codes "--allow" ∷ codes "/opt/tests/" ∷ []

abbrev served : AgentOptions
served = record {
  token = [];
  policy = record { allow = codes "/opt/tests/" ∷ []; allow_any = false };
  slots = 4;
  labels = codes "os=linux" ∷ codes "kvm=true" ∷ [];
  hostname = [];
  max_output_bytes = 2 ^ 20;
}

started : agent_start 4 none true [] command_line ≡ goes_on served
unfolding agent_start
started = refl

agent_start-Guards_example :
    (a : AgentArgs) × (arguments agent_argument (default_agent_args []) command_line ≡ goes_on a)
    × Guards a served
agent_start-Guards_example = agent_start-Guards 4 none true [] command_line served started
