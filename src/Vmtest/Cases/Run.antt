-- ===== src/Vmtest/Cases/Run.antt =====
-- vmtest/src/tests.cpp: a run of the tests that `build_tests` gives, on the context.
use computing_test_plat.Base.{[], none, false}
use computing_test_plat.Vmtest.Config.{Config}
use computing_test_plat.Vmtest.Machine.{Env, World, no_result}
use computing_test_plat.Vmtest.Machine.Safe.{Steady, Safe}
use computing_test_plat.Vmtest.Runner.{TestCase}
use computing_test_plat.Vmtest.Context.{release_vm}
use computing_test_plat.Vmtest.Context.Overlays.{Owned}
use computing_test_plat.Vmtest.Context.Guests.{Patient}

-- The context before the first test.
abbrev pub fresh_context : World
fresh_context = record {
  connected = false;
  vm = none;
  overlay = [];
  next_id = 0;
  calls = [];
  last = no_result;
  fresh = [];
}

module _ (env : Env) (steady : Steady env.clock) (cfg : Config) (patient : Patient env cfg) where
  Keeps : TestCase World → Type 0
  Keeps t = (w : World) → Owned w → Owned (t.fn w).1

  -- What the release of the shared guest does to the context.
  abbrev pub released : World → World
  released w = (release_vm env cfg w).1
