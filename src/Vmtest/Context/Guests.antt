-- ===== src/Vmtest/Context/Guests.antt =====
-- vmtest/src/tests.cpp, `Context`: booting and releasing guests, with what it leaves of their overlays.
use native.Mathlib.Nat.{le_refl, le_trans}
use computing_test_plat.Base.{
  ℕ, ◌+◌, ◌*◌, ◌<◌, ◌≤◌, ◌≡◌, refl, ap, List, [], ◌∷◌, ◌++◌, true, false, ◌==◌, if_both, Text,
  codes, is_empty, arith, Bool,
}
use computing_test_plat.Base.Int.{ℤ, pos, negsuc}
use computing_test_plat.Vmtest.Config.{Config}
use computing_test_plat.Vmtest.Machine.{
  Exception, thrown, Domain, removed, ran, Env, World, M, ◌>>=◌, ◌>>◌, pure, on_throw, modify,
  logged, wait_until, run_cmd, command_result,
}
use computing_test_plat.Vmtest.Machine.Safe.{
  Steady, Reached, Safe, Lenient, pure-Safe, >>=-Safe, >>-Safe, catch-Safe, on_throw-Safe, if-Safe,
  require-Safe,
}
use computing_test_plat.Vmtest.Machine.Waiting.{wait_until-Safe}
use computing_test_plat.Vmtest.Virt.{connection, create_transient, agent_command, release_handle}
use computing_test_plat.Vmtest.Virt.Quiet.{
  connection-Safe, create_transient-Safe, agent_command-Safe, release_handle-Safe,
}
use computing_test_plat.Vmtest.Context.{
  join_path, is_number, remove_file, agent_alive, vm_name, overlay_path, overlay_command, made,
  make_overlay, wait_for_agent, boot, boot_fresh_vm,
}
use computing_test_plat.Vmtest.Context.Overlays.{Owned, NoneMade, NoneMade-Only, last_argument}

-- The fuel is above every wait, in milliseconds.
pub record Patient (env : Env) (cfg : Config) : Type 0 where
  pub boot : cfg.boot_timeout_s * 1000 < env.fuel
  pub shutdown : cfg.shutdown_timeout_s * 1000 < env.fuel
  pub short : 30000 < env.fuel

-- No overlay is left, and the context has none.
pub record Bare (w : World) : Type 0 where
  pub none_left : NoneMade w.calls
  pub no_overlay : w.overlay ≡ []

last-overlay_command :
    (env : Env) (cfg : Config) (q : Text) → last_argument (overlay_command env cfg q) ≡ q
unfolding overlay_command
last-overlay_command env cfg q = refl

join_path_named : (dir name : Text) → is_empty name ≡ false → is_empty (join_path dir name) ≡ false
unfolding join_path
join_path_named [] name e = e
join_path_named (c ∷ []) name e =
    if_both (λ (s : Text). is_empty s ≡ false) (c == 47) _ _ (λ _. refl) (λ _. refl)
join_path_named (c ∷ d ∷ dir) name e = refl

overlay_path_named :
    (env : Env) (cfg : Config) (id : ℕ) → is_empty (overlay_path env cfg id) ≡ false
unfolding overlay_path vm_name
overlay_path_named env cfg id =
    join_path_named cfg.work_dir (vm_name env cfg id ++ codes ".qcow2") refl

module _ (env : Env) (steady : Steady env.clock) (cfg : Config) (patient : Patient env cfg) where
  module _ (I : World → Type 0) (lenient : Lenient env.clock steady I) where
    abbrev S : {A : Type 0} → M A → Type 0
    S m = Safe env.clock steady I m

    pub agent_alive-Safe : (vm : Domain) (t : ℕ) → S (agent_alive env vm t)
    unfolding agent_alive
    agent_alive-Safe vm t =
        catch-Safe env.clock steady I
          (agent_command env vm (codes "{\"execute\":\"guest-ping\"}") t >>= λ _. pure true) _
          (>>=-Safe env.clock steady I
            (agent_command env vm (codes "{\"execute\":\"guest-ping\"}") t) _
            (agent_command-Safe env steady I lenient vm _ t)
            (λ _. pure-Safe env.clock steady I true))
          (λ _. pure-Safe env.clock steady I false)

    wait_for_agent-Safe : (vm : Domain) → S (wait_for_agent env cfg vm)
    unfolding wait_for_agent
    wait_for_agent-Safe vm =
        >>=-Safe env.clock steady I
          (wait_until env (cfg.boot_timeout_s * 1000) 2000 (agent_alive env vm 2)) _
          (wait_until-Safe env steady I lenient (cfg.boot_timeout_s * 1000) 2000
            (agent_alive env vm 2) patient.boot (omega arith) (agent_alive-Safe vm 2))
          (λ up. require-Safe env.clock steady I up _)

    boot-Safe : (id : ℕ) (overlay : Text) → S (boot env cfg id overlay)
    unfolding boot
    boot-Safe id overlay =
        >>-Safe env.clock steady I (connection env cfg.uri) _
          (connection-Safe env steady I lenient cfg.uri)
          (>>=-Safe env.clock steady I (create_transient env _ (vm_name env cfg id)) _
            (create_transient-Safe env steady I lenient _ (vm_name env cfg id))
            (λ vm.
              >>-Safe env.clock steady I (on_throw (wait_for_agent env cfg vm) (release_handle vm))
                _
                (on_throw-Safe env.clock steady I (wait_for_agent env cfg vm) (release_handle vm)
                  (wait_for_agent-Safe vm) (release_handle-Safe env steady I lenient vm))
                (pure-Safe env.clock steady I vm)))

    -- Where the path of the overlay is stored, and what holds before and after that.
    pub record Stores (B : World → Type 0) (put : Text → World → World) : Type 0 where
      pub counted : (n : ℕ) (w : World) → B w → B (record w { next_id = n })
      pub fails :
          (argv : List Text) (rc : ℤ) (file : Bool) (w : World)
          → is_number 0 rc ≡ false
          → B w
          → B (logged (ran argv rc file) w)
      pub makes :
          (q : Text) (argv : List Text) (rc : ℤ) (file : Bool) (w : World)
          → last_argument argv ≡ q
          → is_empty q ≡ false
          → B w
          → I (put q (logged (ran argv rc file) w))
      pub same_calls : (q : Text) (w : World) → (put q w).calls ≡ w.calls
      pub weaker : (w : World) → B w → I w
      pub removes : (q : Text) (w : World) → I w → I (logged (removed q) w)

    module _ (B : World → Type 0) (put : Text → World → World) (stores : Stores B put) where
      remove_file-Safe : (q : Text) → S (remove_file q)
      unfolding remove_file
      remove_file-Safe q =
          if-Safe env.clock steady I (is_empty q) _ _ (pure-Safe env.clock steady I tt) (λ w i.
            record {
              in_fuel = λ e. cc e;
              holds = stores.removes q w i;
              later = steady.forward (removed q) w.calls;
            })

      -- Behind `qemu-img`, by what it returned.
      after_command :
          (id : ℕ) (rc : ℤ) (file : Bool) (w v : World)
          → env.clock w.calls ≤ env.clock v.calls
          → B v
          → is_empty (overlay_path env cfg id) ≡ false
          → Reached env.clock steady I w (
              (made env cfg (overlay_path env cfg id) rc >>= λ overlay.
              modify (put overlay) >> on_throw (boot env cfg id overlay) (remove_file overlay))
                (logged (ran (overlay_command env cfg (overlay_path env cfg id)) rc file) v))
      after_command id rc file w v later b named =
          if_both P (is_number 127 rc) _ _ (λ missing. fails (zero-not-127 rc missing))
            (λ _.
              if_both P (is_number 0 rc) _ _
                (λ _.
                  let v2 = put overlay v1 in
                  let i2 =
                    stores.makes overlay command rc file v (last-overlay_command env cfg overlay)
                      named b in
                  let same = stores.same_calls overlay v1 in
                  let rest =
                    on_throw-Safe env.clock steady I (boot env cfg id overlay) (remove_file overlay)
                      (boot-Safe id overlay) (remove_file-Safe overlay) v2 i2 in
                  record {
                    in_fuel = rest.in_fuel;
                    holds = rest.holds;
                    later = omega (arith, later1, ap env.clock same, rest.later);
                  })
                (λ bad. fails bad))
        where
          overlay : Text
          overlay = overlay_path env cfg id

          command : List Text
          command = overlay_command env cfg overlay

          v1 : World
          v1 = logged (ran command rc file) v

          later1 : env.clock w.calls ≤ env.clock v1.calls
          later1 = le_trans later (steady.forward (ran command rc file) v.calls)

          P : M Text → Type 0
          P m =
              Reached env.clock steady I w
                ((m >>= λ q. modify (put q) >> on_throw (boot env cfg id q) (remove_file q)) v1)

          fails :
              {e : Exception}
              → is_number 0 rc ≡ false
              → Reached env.clock steady I {A = Domain} w (thrown e, v1)
          fails bad = record {
            in_fuel = λ t. cc t;
            holds = stores.weaker v1 (stores.fails command rc file v bad b);
            later = later1;
          }

          zero-not-127 : (n : ℤ) → is_number 127 n ≡ true → is_number 0 n ≡ false
          zero-not-127 (pos n) e = ground (arith, e)
          zero-not-127 (negsuc n) e = refl

      pub boot_fresh_vm-Reached :
          (w : World)
          → B w
          → Reached env.clock steady I w (boot_fresh_vm env cfg (λ q. modify (put q)) w)
      unfolding boot_fresh_vm make_overlay run_cmd
      boot_fresh_vm-Reached w b =
          let id = w.next_id + 1 in
          let v = record w { next_id = id } in
          after_command id
            (command_result (overlay_command env cfg (overlay_path env cfg id)) (env.forks w.calls)
              (env.status w.calls))
            (env.leaves w.calls) w v (le_refl (env.clock w.calls)) (stores.counted id w b)
            (overlay_path_named env cfg id)

pub Bare-Owned : (w : World) → Bare w → Owned w
Bare-Owned w b = record { only = NoneMade-Only w.overlay w.calls b.none_left }
