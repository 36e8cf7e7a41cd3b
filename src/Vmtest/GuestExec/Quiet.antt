-- ===== src/Vmtest/GuestExec/Quiet.antt =====
-- vmtest/src/guest_exec.cpp: a command in the guest makes and removes no file of the host, and its wait
-- ends.
use computing_test_plat.Base.{
  ℕ, ◌*◌, ◌<◌, Option, none, some, Bool, true, false, Text, List, arith, refl, codes, [], ◌∷◌,
}
use computing_test_plat.Base.Int.{ℤ}
use computing_test_plat.Vmtest.Machine.{Domain, Env, World, M, modify, wait_until, failure}
use computing_test_plat.Vmtest.Machine.Safe.{
  Steady, Safe, Lenient, pure-Safe, throw-Safe, >>=-Safe, >>-Safe, gets-Safe, modify-Safe,
}
use computing_test_plat.Vmtest.Machine.Waiting.{wait_until-Safe}
use computing_test_plat.Vmtest.Virt.{agent_command}
use computing_test_plat.Vmtest.Virt.Quiet.{agent_command-Safe}
use computing_test_plat.Vmtest.GuestExec.{
  Parsed, parsed, refused, or_throw, parse_exec_pid, parse_exec_status, exec_command,
  status_command, poll_status, finished, wait_for, guest_exec, guest_sh, timed_out,
}

module _ (env : Env) (steady : Steady env.clock) (I : World → Type 0)
    (lenient : Lenient env.clock steady I) where
  abbrev S : {A : Type 0} → M A → Type 0
  S m = Safe env.clock steady I m

  or_throw-Safe : {A : Type 0} (p : Parsed A) → S (or_throw env p)
  or_throw-Safe (parsed a) = pure-Safe env.clock steady I a
  or_throw-Safe (refused m) = throw-Safe env.clock steady I (failure m)

  poll_status-Safe : (vm : Domain) (pid : ℤ) → S (poll_status env vm pid)
  unfolding poll_status
  poll_status-Safe vm pid =
      >>=-Safe env.clock steady I (agent_command env vm (status_command env pid) 10) _
        (agent_command-Safe env steady I lenient vm _ 10)
        λ text.
          >>=-Safe env.clock steady I (or_throw env (parse_exec_status env text)) _
            (or_throw-Safe _)
            λ last.
              >>-Safe env.clock steady I (modify λ w. record w { last = last }) _
                (modify-Safe env.clock steady I _ (λ w i. lenient.kept last w i) (λ w. refl))
                (pure-Safe env.clock steady I _)

  finished-Safe : (path : Text) (t : ℕ) (b : Bool) → S (finished env path t b)
  finished-Safe path t true = gets-Safe env.clock steady I _
  finished-Safe path t false = throw-Safe env.clock steady I (failure (timed_out env path t))

  wait_for-Safe :
      (vm : Domain) (path : Text) (t : ℕ) (pid : Option ℤ)
      → t * 1000 < env.fuel
      → S (wait_for env vm path t pid)
  wait_for-Safe vm path t none enough =
      throw-Safe env.clock steady I (failure (codes "guest-exec returned no pid"))
  wait_for-Safe vm path t (some pid) enough =
      >>-Safe env.clock steady I (modify λ w. record w { last = _ }) _
        (modify-Safe env.clock steady I _ (λ w i. lenient.kept _ w i) (λ w. refl))
        (>>=-Safe env.clock steady I (wait_until env (t * 1000) 200 (poll_status env vm pid))
          (finished env path t)
          (wait_until-Safe env steady I lenient (t * 1000) 200 (poll_status env vm pid) enough
            (omega arith) (poll_status-Safe vm pid))
          (finished-Safe path t))

  pub guest_exec-Safe :
      (vm : Domain) (path : Text) (args : List Text) (t : ℕ)
      → t * 1000 < env.fuel
      → S (guest_exec env vm path args t)
  unfolding guest_exec
  guest_exec-Safe vm path args t enough =
      >>=-Safe env.clock steady I (agent_command env vm (exec_command env path args) 10) _
        (agent_command-Safe env steady I lenient vm _ 10)
        λ text.
          >>=-Safe env.clock steady I (or_throw env (parse_exec_pid env text))
            (wait_for env vm path t) (or_throw-Safe _) (λ pid. wait_for-Safe vm path t pid enough)

  pub guest_sh-Safe :
      (vm : Domain) (script : Text) (t : ℕ) → t * 1000 < env.fuel → S (guest_sh env vm script t)
  unfolding guest_sh
  guest_sh-Safe vm script t enough =
      guest_exec-Safe vm (codes "/bin/sh") (codes "-c" ∷ script ∷ []) t enough
