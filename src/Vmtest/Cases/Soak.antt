-- ===== src/Vmtest/Cases/Soak.antt =====
-- vmtest/src/tests.cpp, `t_boot_destroy_soak`: each iteration removes the overlay that it made, however it ends.
use native.Mathlib.Nat.{le_refl, le_trans}
use computing_test_plat.Base.{
  ℕ, zero, suc, ◌+◌, ◌≤◌, ◌≡◌, refl, subst, [], ◌∷◌, true, ◌==◌, if◌then◌else◌, if_both, Text,
  codes, is_empty, arith, ◌++◌, ◌≢◌,
}
use computing_test_plat.Base.Ascii.{decimal}
use computing_test_plat.Vmtest.Config.{Config}
use computing_test_plat.Vmtest.Machine.{
  Exception, skip_test, failure, Result, value, thrown, spent, Domain, removed, Env, World, M,
  continue, ◌>>=◌, ◌>>◌, pure, throw, handled, on_throw, gets, require,
}
use computing_test_plat.Vmtest.Machine.Safe.{
  Steady, Reached, Safe, Lenient, pure-Safe, throw-Safe, >>=-Safe, >>-Safe, on_throw-Safe, if-Safe,
  require-Safe, continue_to, continue_value,
}
use computing_test_plat.Vmtest.Virt.{gone, shut_off, destroy, release_handle}
use computing_test_plat.Vmtest.Virt.Quiet.{destroy-Safe, release_handle-Safe}
use computing_test_plat.Vmtest.Context.{remove_file, agent_alive, boot_fresh_vm, release_vm}
use computing_test_plat.Vmtest.Context.Overlays.{
  Only, Owned, Only-quiet, Only-removed, Only-nameless, NoneMade-Only, NoneMade-made,
  NoneMade-failed, Only-after_removed,
}
use computing_test_plat.Vmtest.Context.Guests.{
  Patient, Bare, Stores, Bare-Owned, agent_alive-Safe, boot_fresh_vm-Reached,
}
use computing_test_plat.Vmtest.Context.Shared.{release_vm-Cleared}
use computing_test_plat.Vmtest.Cases.{
  state_is, state_becomes, set_fresh, soak_guest, soak_try, soak_iteration, soak_from,
  t_boot_destroy_soak, what_of,
}
use computing_test_plat.Vmtest.Cases.Kept.{state_is-Safe, state_becomes-Safe}

-- The only overlay that is left is the one that the iteration has stored.
record Fresh (w : World) : Type 0 where
  pub only : Only w.fresh w.calls
  pub no_overlay : w.overlay ≡ []

module _ (env : Env) (steady : Steady env.clock) (cfg : Config) (patient : Patient env cfg) where
  abbrev S : {A : Type 0} → M A → Type 0
  S m = Safe env.clock steady Fresh m

  lenient : Lenient env.clock steady Fresh
  lenient = record {
    quiet = λ c w q i. record {
      only = Only-quiet w.fresh c w.calls q i.only;
      no_overlay = i.no_overlay;
    };
    connects = λ b w i. record { only = i.only; no_overlay = i.no_overlay };
    kept = λ r w i. record { only = i.only; no_overlay = i.no_overlay };
  }

  Bare-Fresh : (w : World) → Bare w → Fresh w
  Bare-Fresh w b = record {
    only = NoneMade-Only w.fresh w.calls b.none_left;
    no_overlay = b.no_overlay;
  }

  stores : Stores env steady cfg patient Fresh lenient Bare (λ q w. record w { fresh = q })
  stores = record {
    counted = λ n w b. record { none_left = b.none_left; no_overlay = b.no_overlay };
    fails = λ argv rc file w bad b. record {
      none_left = NoneMade-failed argv rc file w.calls bad b.none_left;
      no_overlay = b.no_overlay;
    };
    makes = λ q argv rc file w last named b. record {
      only = NoneMade-made q argv rc file w.calls last named b.none_left;
      no_overlay = b.no_overlay;
    };
    same_calls = λ q w. refl;
    weaker = λ w b. Bare-Fresh w b;
    removes = λ q w o. record {
      only = Only-after_removed w.fresh q w.calls o.only;
      no_overlay = o.no_overlay;
    };
  }

  soak_guest-Safe : (i : ℕ) (vm : Domain) → S (soak_guest env cfg i vm)
  unfolding soak_guest
  soak_guest-Safe i vm =
      >>=-Safe env.clock steady Fresh (agent_alive env vm 2) _
        (agent_alive-Safe env steady cfg patient Fresh lenient vm 2)
        λ alive.
          >>-Safe env.clock steady Fresh (require alive _) _
            (require-Safe env.clock steady Fresh alive _)
            (>>-Safe env.clock steady Fresh (destroy env vm) _
              (destroy-Safe env steady Fresh lenient vm)
              (>>=-Safe env.clock steady Fresh (state_becomes env cfg vm gone 15) _
                (state_becomes-Safe env steady cfg patient Fresh lenient vm gone 15
                  (omega (arith, patient.short)))
                λ went.
                  >>=-Safe env.clock steady Fresh
                    (if went then pure true else state_is env cfg vm shut_off) _
                    (if-Safe env.clock steady Fresh went _ _ (pure-Safe env.clock steady Fresh true)
                      (state_is-Safe env steady cfg patient Fresh lenient vm shut_off))
                    (λ ended. require-Safe env.clock steady Fresh ended _)))

  on_vm-Safe :
      (i : ℕ) (vm : Domain)
      → S (on_throw (soak_guest env cfg i vm) (release_handle vm) >> release_handle vm)
  on_vm-Safe i vm =
      let released = release_handle-Safe env steady Fresh lenient vm in
      >>-Safe env.clock steady Fresh (on_throw (soak_guest env cfg i vm) (release_handle vm)) _
        (on_throw-Safe env.clock steady Fresh (soak_guest env cfg i vm) (release_handle vm)
          (soak_guest-Safe i vm) released)
        released

  soak_try-Reached :
      (i : ℕ) (w : World) → Bare w → Reached env.clock steady Fresh w (soak_try env cfg i w)
  unfolding soak_try
  soak_try-Reached i w b =
      let v = record w { fresh = [] } in
      let booted =
        boot_fresh_vm-Reached env steady cfg patient Fresh lenient Bare _ stores v
          (record { none_left = b.none_left; no_overlay = b.no_overlay }) in
      continue_to env.clock steady Fresh Fresh w (boot_fresh_vm env cfg (set_fresh env cfg) v) _
        booted.in_fuel booted.holds booted.later (λ u f. f)
        λ vm u f later.
          let rest = on_vm-Safe i vm u f in
          record { in_fuel = rest.in_fuel; holds = rest.holds; later = le_trans later rest.later }

  nameless : (s : Text) → is_empty s ≡ true → s ≡ []
  nameless [] e = refl
  nameless (c ∷ s) e = cc e

  -- The stored overlay is removed, and then what comes next happens.
  dropped :
      (w v : World) (x : Result Unit)
      → x ≢ spent
      → env.clock w.calls ≤ env.clock v.calls
      → Fresh v
      → Reached env.clock steady Bare w (continue (remove_file v.fresh v) (λ _ u. (x, u)))
  unfolding remove_file
  dropped w v x ends later f =
      if_both (λ (m : M Unit). Reached env.clock steady Bare w (continue (m v) (λ _ u. (x, u))))
        (is_empty v.fresh) _ _
        (λ none_made. record {
          in_fuel = ends;
          holds = record {
            none_left =
                Only-nameless v.calls
                  (subst (λ q. Only q v.calls) (nameless v.fresh none_made) f.only);
            no_overlay = f.no_overlay;
          };
          later = later;
        })
        (λ _. record {
          in_fuel = ends;
          holds = record {
            none_left = Only-removed v.fresh v.calls f.only;
            no_overlay = f.no_overlay;
          };
          later = le_trans later (steady.forward (removed v.fresh) v.calls);
        })

  soak_iteration-Reached :
      (i : ℕ) (w : World) → Bare w → Reached env.clock steady Bare w (soak_iteration env cfg i w)
  unfolding soak_iteration
  soak_iteration-Reached i w b = by_result (soak_try env cfg i w) (soak_try-Reached i w b)
    where
      message : Exception → Text
      message e =
          codes "iteration "
          ++ (decimal i
              ++ (codes "/" ++ (decimal cfg.iterations ++ (codes ": " ++ what_of env cfg e))))

      drop : M Unit
      drop = gets (λ u. u.fresh) >>= λ overlay. remove_file overlay

      handler : Exception → M Unit
      handler e =
          gets (λ u. u.fresh) >>= λ overlay. remove_file overlay >> throw (failure (message e))

      stays_thrown :
          (e : Exception) (r : Result Unit × World)
          → Reached env.clock steady Bare w (continue {B = Unit} r (λ _ u. (thrown e, u)))
          → Reached env.clock steady Bare w
              (continue (continue {B = Unit} r (λ _ u. (thrown e, u))) (λ _. drop))
      stays_thrown e (value a, u) x = x
      stays_thrown e (thrown d, u) x = x
      stays_thrown e (spent, u) x = x

      unit_end :
          (r : Result Unit × World)
          → Reached env.clock steady Bare w (continue r (λ _ u. (value tt, u)))
          → Reached env.clock steady Bare w r
      unit_end (value a, u) x = x
      unit_end (thrown d, u) x = x
      unit_end (spent, u) x = x

      by_result :
          (r : Result Unit × World)
          → Reached env.clock steady Fresh w r
          → Reached env.clock steady Bare w (continue (handled r handler) (λ _. drop))
      by_result (value a, v) x = unit_end _ (dropped w v (value tt) (λ s. cc s) x.later x.holds)
      by_result (thrown e, v) x =
          stays_thrown (failure (message e)) (remove_file v.fresh v)
            (dropped w v (thrown (failure (message e))) (λ s. cc s) x.later x.holds)
      by_result (spent, v) x = absurd (x.in_fuel refl)

  soak_from-Reached :
      (left i : ℕ) (w : World)
      → Bare w
      → Reached env.clock steady Bare w (soak_from env cfg left i w)
  unfolding soak_from
  soak_from-Reached zero i w b = record {
    in_fuel = λ e. cc e;
    holds = b;
    later = le_refl (env.clock w.calls);
  }
  soak_from-Reached (suc left) i w b =
      let first = soak_iteration-Reached i w b in
      continue_to env.clock steady Bare Bare w (soak_iteration env cfg i w) _ first.in_fuel
        first.holds first.later (λ v x. x)
        λ _ v x later.
          let rest = soak_from-Reached left (i + 1) v x in
          record { in_fuel = rest.in_fuel; holds = rest.holds; later = le_trans later rest.later }

  soak : M Unit
  soak = release_vm env cfg >> soak_from env cfg cfg.iterations 1

  soak-Safe : Safe env.clock steady Owned soak
  unfolding soak
  soak-Safe w o =
      let (returns, cleared) = release_vm-Cleared env steady cfg patient w o in
      continue_value env.clock steady Owned Bare w tt (release_vm env cfg w) _ returns cleared.holds
        cleared.later
        λ v b later.
          let rest = soak_from-Reached cfg.iterations 1 v b in
          record {
            in_fuel = rest.in_fuel;
            holds = Bare-Owned _ rest.holds;
            later = le_trans later rest.later;
          }

  pub t_boot_destroy_soak-Safe : Safe env.clock steady Owned (t_boot_destroy_soak env cfg)
  unfolding t_boot_destroy_soak soak
  t_boot_destroy_soak-Safe =
      if-Safe env.clock steady Owned (cfg.iterations == 0) _ _
        (throw-Safe env.clock steady Owned
          (skip_test (codes "pass --iterations N to enable the soak test")))
        soak-Safe
