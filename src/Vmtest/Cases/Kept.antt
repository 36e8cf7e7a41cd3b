-- ===== src/Vmtest/Cases/Kept.antt =====
-- vmtest/src/tests.cpp, the test cases on the shared guest: none runs out of fuel, and each leaves no
-- overlay that was said to be made but that of the shared guest.
use computing_test_plat.Base.{
  ℕ, ◌*◌, ◌<◌, Option, none, some, Bool, ◌||◌, Text, codes, arith, ◌++◌, text_eq,
}
use computing_test_plat.Base.Int.{ℤ, pos}
use computing_test_plat.Vmtest.Config.{Config}
use computing_test_plat.Vmtest.Machine.{
  failure, Domain, ExecResult, Env, World, M, ◌>>=◌, ◌>>◌, pure, require, wait_until,
}
use computing_test_plat.Vmtest.Machine.Safe.{
  Steady, Safe, Lenient, pure-Safe, throw-Safe, >>=-Safe, >>-Safe, require-Safe,
}
use computing_test_plat.Vmtest.Machine.Waiting.{wait_until-Safe}
use computing_test_plat.Vmtest.GuestExec.{guest_sh}
use computing_test_plat.Vmtest.GuestExec.Quiet.{guest_sh-Safe}
use computing_test_plat.Vmtest.Virt.{
  DomState, running, paused, shut_off, gone, same_state, state, suspend, resume, shutdown, info,
}
use computing_test_plat.Vmtest.Virt.Quiet.{
  state-Safe, suspend-Safe, resume-Safe, shutdown-Safe, info-Safe,
}
use computing_test_plat.Vmtest.Context.{agent_alive, ensure_vm, release_vm}
use computing_test_plat.Vmtest.Context.Overlays.{Owned, Owned-Lenient}
use computing_test_plat.Vmtest.Context.Guests.{Patient, Bare-Owned, agent_alive-Safe}
use computing_test_plat.Vmtest.Context.Shared.{ensure_vm-Safe, release_vm-Cleared}
use computing_test_plat.Vmtest.Cases.{
  or_invalid, stoi, stol, require_eq, state_is, state_becomes, t_boot_and_agent, t_pause_resume,
  t_vcpu_count, t_memory, t_hypervisor_flag, t_exit_code, t_stdout_capture, t_graceful_shutdown,
}

module _ (env : Env) (steady : Steady env.clock) (cfg : Config) (patient : Patient env cfg) where
  module _ (I : World → Type 0) (lenient : Lenient env.clock steady I) where
    abbrev S : {A : Type 0} → M A → Type 0
    S m = Safe env.clock steady I m

    pub state_is-Safe : (vm : Domain) (want : DomState) → S (state_is env cfg vm want)
    state_is-Safe vm want =
        >>=-Safe env.clock steady I (state env vm) _ (state-Safe env steady I lenient vm)
          (λ st. pure-Safe env.clock steady I _)

    pub state_becomes-Safe :
        (vm : Domain) (want : DomState) (t : ℕ)
        → t * 1000 < env.fuel
        → S (state_becomes env cfg vm want t)
    unfolding state_becomes
    state_becomes-Safe vm want t enough =
        wait_until-Safe env steady I lenient (t * 1000) 200 (state_is env cfg vm want) enough
          (omega arith) (state_is-Safe vm want)

  abbrev O : {A : Type 0} → M A → Type 0
  O m = Safe env.clock steady Owned m

  abbrev lenient : Lenient env.clock steady Owned
  lenient = Owned-Lenient env steady

  -- A test that begins with the shared guest.
  on_guest :
      {A : Type 0} (f : Domain → M A) → ((vm : Domain) → O (f vm)) → O (ensure_vm env cfg >>= f)
  on_guest f s =
      >>=-Safe env.clock steady Owned (ensure_vm env cfg) f (ensure_vm-Safe env steady cfg patient)
        s

  -- A shell command in it.
  with_output :
      {A : Type 0} (vm : Domain) (script : Text) (f : ExecResult → M A)
      → ((r : ExecResult) → O (f r))
      → O (guest_sh env vm script 30 >>= f)
  with_output vm script f s =
      >>=-Safe env.clock steady Owned (guest_sh env vm script 30) f
        (guest_sh-Safe env steady Owned lenient vm script 30 patient.short) s

  requires : {B : Type 0} (b : Bool) (msg : Text) (k : M B) → O k → O (require b msg >> k)
  requires b msg k s =
      >>-Safe env.clock steady Owned (require b msg) k (require-Safe env.clock steady Owned b msg) s

  waits :
      {B : Type 0} (t interval : ℕ) (pred : M Bool) (f : Bool → M B)
      → t < env.fuel
      → 0 < interval
      → O pred
      → ((b : Bool) → O (f b))
      → O (wait_until env t interval pred >>= f)
  waits t interval pred f enough some_time safe s =
      >>=-Safe env.clock steady Owned (wait_until env t interval pred) f
        (wait_until-Safe env steady Owned lenient t interval pred enough some_time safe) s

  alive-Safe : (vm : Domain) → O (agent_alive env vm 2)
  alive-Safe vm = agent_alive-Safe env steady cfg patient Owned lenient vm 2

  pub t_boot_and_agent-Safe : O (t_boot_and_agent env cfg)
  unfolding t_boot_and_agent
  t_boot_and_agent-Safe = on_guest _ λ vm.
      >>=-Safe env.clock steady Owned (state env vm) _ (state-Safe env steady Owned lenient vm)
        λ st.
          >>=-Safe env.clock steady Owned (state env vm) _ (state-Safe env steady Owned lenient vm)
            λ shown. requires (same_state st running) _ _ (
              >>=-Safe env.clock steady Owned (agent_alive env vm 2) _ (alive-Safe vm) λ alive.
                requires alive _ _ (
                  >>=-Safe env.clock steady Owned (info env vm) _
                    (info-Safe env steady Owned lenient vm)
                    λ i. require-Safe env.clock steady Owned _ _))

  becomes :
      {B : Type 0} (vm : Domain) (want : DomState) (t : ℕ) (f : Bool → M B)
      → t * 1000 < env.fuel
      → ((b : Bool) → O (f b))
      → O (state_becomes env cfg vm want t >>= f)
  becomes vm want t f enough s =
      >>=-Safe env.clock steady Owned (state_becomes env cfg vm want t) f
        (state_becomes-Safe Owned lenient vm want t enough) s

  pub t_pause_resume-Safe : O (t_pause_resume env cfg)
  unfolding t_pause_resume
  t_pause_resume-Safe = on_guest _ λ vm.
      >>-Safe env.clock steady Owned (suspend env vm) _ (suspend-Safe env steady Owned lenient vm) (
        becomes vm paused 10 _ (omega (arith, patient.short)) λ was. requires was _ _ (
          >>-Safe env.clock steady Owned (resume env vm) _ (resume-Safe env steady Owned lenient vm)
            (becomes vm running 10 _ (omega (arith, patient.short)) λ runs. requires runs _ _ (
              waits 30000 1000 (agent_alive env vm 2) _ patient.short (omega arith) (alive-Safe vm)
                λ alive. require-Safe env.clock steady Owned alive _))))

  or_invalid-Safe : (what : Text) (n : Option ℤ) → O (or_invalid what n)
  or_invalid-Safe what none = throw-Safe env.clock steady Owned (failure what)
  or_invalid-Safe what (some n) = pure-Safe env.clock steady Owned n

  pub t_vcpu_count-Safe : O (t_vcpu_count env cfg)
  unfolding t_vcpu_count
  t_vcpu_count-Safe = on_guest _ λ vm. with_output vm _ _ λ r. requires _ _ _ (
      >>=-Safe env.clock steady Owned (stoi r.out) _ (or_invalid-Safe _ _)
        λ n. require-Safe env.clock steady Owned _ _)

  pub t_memory-Safe : O (t_memory env cfg)
  unfolding t_memory
  t_memory-Safe = on_guest _ λ vm. with_output vm _ _ λ r. requires _ _ _ (
      >>=-Safe env.clock steady Owned (stol r.out) _ (or_invalid-Safe _ _)
        λ n. requires _ _ _ (require-Safe env.clock steady Owned _ _))

  pub t_hypervisor_flag-Safe : O (t_hypervisor_flag env cfg)
  unfolding t_hypervisor_flag
  t_hypervisor_flag-Safe =
      on_guest _
        λ vm. with_output vm _ _ λ r. requires _ _ _ (require-Safe env.clock steady Owned _ _)

  pub t_exit_code-Safe : O (t_exit_code env cfg)
  unfolding t_exit_code
  t_exit_code-Safe =
      on_guest _
        λ vm. with_output vm _ _ λ r. requires _ _ _ (require-Safe env.clock steady Owned _ _)

  pub t_stdout_capture-Safe : O (t_stdout_capture env cfg)
  unfolding t_stdout_capture
  t_stdout_capture-Safe = on_guest _ λ vm. with_output vm _ _ λ r.
      >>-Safe env.clock steady Owned (require_eq r.exit_code (pos 0) (codes "exit code")) _
        (require-Safe env.clock steady Owned _ _)
        (requires (text_eq r.out (codes "hello-vmtest"))
          (codes "stdout mismatch: '" ++ (r.out ++ codes "'")) _
          (require-Safe env.clock steady Owned (text_eq r.err (codes "oops"))
            (codes "stderr mismatch: '" ++ (r.err ++ codes "'"))))

  Cleared-Safe : O (release_vm env cfg)
  Cleared-Safe w o =
      let (_, r) = release_vm-Cleared env steady cfg patient w o in
      record { in_fuel = r.in_fuel; holds = Bare-Owned _ r.holds; later = r.later }

  pub t_graceful_shutdown-Safe : O (t_graceful_shutdown env cfg)
  unfolding t_graceful_shutdown
  t_graceful_shutdown-Safe = on_guest _ λ vm.
      >>-Safe env.clock steady Owned (shutdown env vm) _ (shutdown-Safe env steady Owned lenient vm)
        (waits (cfg.shutdown_timeout_s * 1000) 1000
          (state env vm >>= λ st. pure (same_state st gone || same_state st shut_off)) _
          patient.shutdown (omega arith)
          (>>=-Safe env.clock steady Owned (state env vm) _ (state-Safe env steady Owned lenient vm)
            λ st. pure-Safe env.clock steady Owned (same_state st gone || same_state st shut_off))
          λ stopped. requires stopped _ _ Cleared-Safe)
