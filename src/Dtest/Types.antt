-- ===== src/Dtest/Types.antt =====
-- dtest/include/dtest/jobs.hpp and scheduler.hpp: the records of a run. Durations (double seconds)
-- are left out: nothing in these files branches on them.
use computing_test_plat.Base.{ℕ, Text, List, []}
use computing_test_plat.Base.Int.{ℤ}

pub record Task : Type 0 where
  pub name : Text
  pub argv : List Text
  pub env : List (Text × Text)
  pub timeout_s : ℕ
  pub retries : ℕ
  pub needs : List Text

pub record AgentInfo : Type 0 where
  pub address : Text
  pub hostname : Text
  pub slots : ℕ
  pub labels : List Text

pub data AttemptStatus : Type 0 where
  passed failed timed_out agent_error : AttemptStatus

pub record AttemptResult : Type 0 where
  pub status : AttemptStatus
  pub exit_code : ℤ
  pub out : Text
  pub err : Text
  pub message : Text

pub record AttemptRecord : Type 0 where
  pub agent : Text
  pub result : AttemptResult

pub data FinalStatus : Type 0 where
  passed failed timed_out unschedulable : FinalStatus

pub record TaskOutcome : Type 0 where
  pub task : Task
  pub status : FinalStatus
  pub attempts : List AttemptRecord
  pub message : Text

pub record RunSummary : Type 0 where
  pub outcomes : List TaskOutcome
  pub dead_agents : List Text

-- `Task` with its default member values.
abbrev pub default_task : Task
default_task = record { name = []; argv = []; env = []; timeout_s = 60; retries = 0; needs = [] }

-- `AgentInfo` with its default member values.
abbrev pub default_agent : AgentInfo
default_agent = record { address = []; hostname = []; slots = 1; labels = [] }
