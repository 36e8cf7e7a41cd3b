-- ===== src/Vmtest/Cases.antt =====
-- vmtest/src/tests.cpp: the test cases. `std::stoi` and `std::stol` throw where the text begins with no
-- number or with one out of range.
pub mod Kept
pub mod Soak
pub mod Run
use computing_test_plat.Base.{
  ℕ, zero, suc, ◌+◌, ◌-◌, ◌*◌, ◌^◌, List, [], ◌∷◌, ◌++◌, Option, none, some, Bool, true, false, not,
  ◌||◌, ltb, leb, ◌==◌, if◌then◌else◌, Text, codes, starts_with, text_eq,
}
use computing_test_plat.Base.Int.{ℤ, pos, negsuc, pos_part, neg_part, ltb_ℤ}
use computing_test_plat.Base.Ascii.{decimal, is_digit, digits_from}
use computing_test_plat.Base.Numbers.{number_in}
use computing_test_plat.Vmtest.Config.{Config}
use computing_test_plat.Vmtest.Context.{
  remove_file, agent_alive, boot_fresh_vm, ensure_vm, release_vm, is_over, integer_text,
}
use computing_test_plat.Vmtest.GuestExec.{guest_sh}
use computing_test_plat.Vmtest.Machine.{
  Exception, skip_test, failure, Result, value, thrown, spent, Domain, ExecResult, Env, World, M,
  ◌>>=◌, ◌>>◌, pure, throw, catch, on_throw, modify, gets, require, wait_until,
}
use computing_test_plat.Vmtest.Runner.{Ending, TestCase}
use computing_test_plat.Vmtest.Virt.{
  DomState, running, paused, shut_off, gone, same_state, state_text, state, suspend, resume,
  shutdown, destroy, info, release_handle,
}

abbrev or_invalid : Text → Option ℤ → M ℤ
or_invalid what none = throw (failure what)
or_invalid what (some n) = pure n

abbrev pub stoi : Text → M ℤ
stoi s = or_invalid (codes "stoi") (number_in (2 ^ 31) s)

abbrev pub stol : Text → M ℤ
stol s = or_invalid (codes "stol") (number_in (2 ^ 63) s)

-- `require_eq`, on numbers.
abbrev pub require_eq : ℤ → ℤ → Text → M Unit
require_eq actual expected what = require (not (ltb_ℤ actual expected || ltb_ℤ expected actual)) (
    what
    ++ (codes ": expected " ++ (integer_text expected ++ (codes ", got " ++ integer_text actual))))

-- n * k.
abbrev scaled : ℕ → ℤ → ℤ
scaled k (pos n) = pos (n * k)
scaled zero (negsuc n) = pos 0
scaled (suc k) (negsuc n) = negsuc (suc n * suc k - 1)

module _ (env : Env) (cfg : Config) where
  abbrev pub state_is : Domain → DomState → M Bool
  state_is vm want = state env vm >>= λ st. pure (same_state st want)

  unfoldable pub state_becomes : Domain → DomState → ℕ → M Bool
  unfolding state wait_until
  state_becomes vm want timeout_s = wait_until env (timeout_s * 1000) 200 (state_is vm want)

  -- The state is asked for twice, for the test and for its message.
  unfoldable pub t_boot_and_agent : M Unit
  unfolding ensure_vm state agent_alive info
  t_boot_and_agent = ensure_vm env cfg >>= λ vm. state env vm >>= λ st. state env vm >>= λ shown.
      require (same_state st running)
        (codes "domain is not running after boot: " ++ state_text shown)
      >> (agent_alive env vm 2 >>= λ alive.
          require alive (codes "guest agent stopped answering")
          >> (info env vm >>= λ i.
              require_eq (pos i.0) (pos cfg.vcpus) (codes "vCPU count reported by libvirt")))

  unfoldable pub t_pause_resume : M Unit
  unfolding ensure_vm suspend resume state_becomes agent_alive wait_until
  t_pause_resume = ensure_vm env cfg >>= λ vm.
      suspend env vm
      >> (state_becomes vm paused 10 >>= λ was_paused.
          require was_paused (codes "domain did not reach 'paused'")
          >> (resume env vm
              >> (state_becomes vm running 10 >>= λ runs.
                  require runs (codes "domain did not return to 'running'")
                  >> (wait_until env 30000 1000 (agent_alive env vm 2) >>= λ alive.
                      require alive (codes "guest agent unreachable 30s after resume")))))

  unfoldable pub t_vcpu_count : M Unit
  unfolding ensure_vm guest_sh number_in
  t_vcpu_count = ensure_vm env cfg >>= λ vm. guest_sh env vm (codes "nproc") 30 >>= λ r.
      require_eq r.exit_code (pos 0) (codes "nproc exit code")
      >> (stoi r.out >>= λ n. require_eq n (pos cfg.vcpus) (codes "vCPUs visible inside the guest"))

  unfoldable pub t_memory : M Unit
  unfolding ensure_vm guest_sh number_in decimal
  t_memory = ensure_vm env cfg >>= λ vm.
      guest_sh env vm (codes "awk '/^MemTotal:/ {print $2}' /proc/meminfo") 30 >>= λ r.
      require_eq r.exit_code (pos 0) (codes "meminfo read exit code")
      >> (stol r.out >>= λ guest_kib.
          require (not (ltb_ℤ (pos (cfg.mem_mib * 1024)) guest_kib)) (
            codes "guest reports more memory than configured ("
            ++ (integer_text guest_kib ++ codes " kiB)"))
          >> require (not (ltb_ℤ (scaled 100 guest_kib) (pos (cfg.mem_mib * 1024 * 70)))) (
              codes "guest reports less than 70% of configured memory ("
              ++ (integer_text guest_kib ++ codes " kiB)")))

  unfoldable pub t_hypervisor_flag : M Unit
  unfolding ensure_vm guest_sh starts_with
  t_hypervisor_flag = ensure_vm env cfg >>= λ vm.
      guest_sh env vm
        (codes "grep -m1 '^flags' /proc/cpuinfo | grep -qw hypervisor && echo yes || echo no") 30
      >>= λ r.
          require_eq r.exit_code (pos 0) (codes "cpuinfo probe exit code")
          >> require (starts_with r.out (codes "yes"))
              (codes "guest CPU does not advertise the 'hypervisor' flag")

  unfoldable pub t_exit_code : M Unit
  unfolding ensure_vm guest_sh
  t_exit_code = ensure_vm env cfg >>= λ vm. guest_sh env vm (codes "exit 7") 30 >>= λ r.
      require r.exited (codes "command did not finish")
      >> require_eq r.exit_code (pos 7) (codes "exit code propagated through the guest agent")

  unfoldable pub t_stdout_capture : M Unit
  unfolding ensure_vm guest_sh text_eq
  t_stdout_capture = ensure_vm env cfg >>= λ vm.
      guest_sh env vm (codes "printf hello-vmtest; printf oops >&2") 30 >>= λ r.
      require_eq r.exit_code (pos 0) (codes "exit code")
      >> (require (text_eq r.out (codes "hello-vmtest"))
            (codes "stdout mismatch: '" ++ (r.out ++ codes "'"))
          >> require (text_eq r.err (codes "oops"))
              (codes "stderr mismatch: '" ++ (r.err ++ codes "'")))

  unfoldable pub t_graceful_shutdown : M Unit
  unfolding ensure_vm shutdown state wait_until release_vm decimal
  t_graceful_shutdown = ensure_vm env cfg >>= λ vm.
      shutdown env vm
      >> (wait_until env (cfg.shutdown_timeout_s * 1000) 1000
            (state env vm >>= λ st. pure (same_state st gone || same_state st shut_off))
          >>= λ stopped.
              require stopped (
                codes "guest did not shut down within "
                ++ (decimal cfg.shutdown_timeout_s ++ codes "s"))
              >> release_vm env cfg)

  abbrev pub set_fresh : Text → M Unit
  set_fresh path = modify λ w. record w { fresh = path }

  abbrev of_iteration : ℕ → Text → Text
  of_iteration i what = codes "iteration " ++ (decimal i ++ (codes ": " ++ what))

  -- A fresh guest, for as long as its handle lives.
  unfoldable pub soak_guest : ℕ → Domain → M Unit
  unfolding agent_alive destroy state_becomes state decimal
  soak_guest i vm = agent_alive env vm 2 >>= λ alive.
      require alive (of_iteration i (codes "guest agent not alive"))
      >> (destroy env vm
          >> (state_becomes vm gone 15 >>= λ went.
              (if went then pure true else state_is vm shut_off) >>= λ ended.
              require ended (of_iteration i (codes "domain still present after destroy"))))

  abbrev pub what_of : Exception → Text
  what_of (skip_test m) = m
  what_of (failure m) = m

  unfoldable pub soak_try : ℕ → M Unit
  unfolding boot_fresh_vm soak_guest
  soak_try i =
      modify (λ w. record w { fresh = [] })
      >> (boot_fresh_vm env cfg set_fresh >>= λ vm.
          on_throw (soak_guest i vm) (release_handle vm) >> release_handle vm)

  unfoldable pub soak_iteration : ℕ → M Unit
  unfolding soak_try remove_file decimal
  soak_iteration i =
      catch (soak_try i) (λ e. gets (λ w. w.fresh) >>= λ overlay.
      remove_file overlay
      >> throw (
          failure (
            codes "iteration "
            ++ (decimal i
                ++ (codes "/" ++ (decimal cfg.iterations ++ (codes ": " ++ what_of e)))))))
      >> (gets (λ w. w.fresh) >>= λ overlay. remove_file overlay)

  -- The iterations from `i` on, as many as are left.
  unfoldable pub soak_from : ℕ → ℕ → M Unit
  unfolding soak_iteration
  soak_from zero i = pure tt
  soak_from (suc left) i = soak_iteration i >> soak_from left (i + 1)

  unfoldable pub t_boot_destroy_soak : M Unit
  unfolding release_vm soak_from
  t_boot_destroy_soak =
      if cfg.iterations == 0
      then throw (skip_test (codes "pass --iterations N to enable the soak test"))
      else (release_vm env cfg >> soak_from cfg.iterations 1)

  -- How the run of a test sees an action end.
  abbrev ending : Result Unit × World → Ending × World
  ending (value a, w) = (Ending.returned, w)
  ending (thrown (skip_test m), w) = (Ending.skip_test m, w)
  ending (thrown (failure m), w) = (Ending.failure m, w)
  ending (spent, w) = (Ending.failure [], w)

  abbrev pub case : Text → Text → M Unit → TestCase World
  case suite name m = record { suite = suite; name = name; fn = λ w. ending (m w) }

  pub build_tests : List (TestCase World)
  unfolding t_boot_and_agent t_pause_resume t_vcpu_count t_memory t_hypervisor_flag t_exit_code
      t_stdout_capture t_graceful_shutdown t_boot_destroy_soak
  build_tests =
      case (codes "lifecycle") (codes "boot_and_agent_ping") t_boot_and_agent
      ∷ case (codes "lifecycle") (codes "pause_resume") t_pause_resume
      ∷ case (codes "guest") (codes "vcpu_count_matches") t_vcpu_count
      ∷ case (codes "guest") (codes "memory_matches") t_memory
      ∷ case (codes "guest") (codes "hypervisor_cpu_flag") t_hypervisor_flag
      ∷ case (codes "guest") (codes "exit_code_propagates") t_exit_code
      ∷ case (codes "guest") (codes "stdout_stderr_capture") t_stdout_capture
      ∷ case (codes "lifecycle") (codes "graceful_shutdown") t_graceful_shutdown
      ∷ case (codes "stress") (codes "boot_destroy_soak") t_boot_destroy_soak
      ∷ []
