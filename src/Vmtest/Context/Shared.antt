-- ===== src/Vmtest/Context/Shared.antt =====
-- vmtest/src/tests.cpp, `Context`: the shared guest, its overlay and the end of the context.
use native.Mathlib.Nat.{le_refl, le_trans}
use computing_test_plat.Base.{
  ℕ, ◌≡◌, ◌≢◌, refl, [], ◌∷◌, Option, none, some, true, if◌then◌else◌, if_both, Text, is_empty,
  subst,
}
use computing_test_plat.Vmtest.Config.{Config}
use computing_test_plat.Vmtest.Machine.{
  Result, value, thrown, spent, Domain, removed, Env, World, M, continue, ◌>>=◌, ◌>>◌, pure,
  handled, catch, modify, gets,
}
use computing_test_plat.Vmtest.Machine.Safe.{
  Steady, Reached, Safe, Lenient, pure-Safe, >>=-Safe, >>-Safe, catch-Safe, if-Safe, modify-Safe,
  continue_to, continue_value,
}
use computing_test_plat.Vmtest.Virt.{same_state, gone, state, destroy, release_handle}
use computing_test_plat.Vmtest.Virt.Quiet.{state-Safe, destroy-Safe, release_handle-Safe}
use computing_test_plat.Vmtest.Context.{
  remove_file, boot_fresh_vm, is_over, stop, release_vm, set_overlay, boot_shared, reuse, ensure_vm,
  reuse_valid,
}
use computing_test_plat.Vmtest.Context.Overlays.{
  Owned, Owned-Lenient, Only-removed, Only-nameless, NoneMade-made, NoneMade-failed,
  Only-after_removed, Only,
}
use computing_test_plat.Vmtest.Context.Guests.{
  Patient, Bare, Stores, Bare-Owned, boot_fresh_vm-Reached,
}

module _ (env : Env) (steady : Steady env.clock) (cfg : Config) (patient : Patient env cfg) where
  abbrev S : {A : Type 0} → M A → Type 0
  S m = Safe env.clock steady Owned m

  abbrev lenient : Lenient env.clock steady Owned
  lenient = Owned-Lenient env steady

  abbrev attempt_stop : Domain → M Unit
  attempt_stop vm = state env vm >>= λ st. if is_over env cfg st then pure tt else destroy env vm

  attempt_stop-Safe : (vm : Domain) → S (attempt_stop vm)
  attempt_stop-Safe vm =
      >>=-Safe env.clock steady Owned (state env vm) _ (state-Safe env steady Owned lenient vm)
        λ st.
          if-Safe env.clock steady Owned (is_over env cfg st) _ _
            (pure-Safe env.clock steady Owned tt) (destroy-Safe env steady Owned lenient vm)

  handled_value : (r : Result Unit × World) → r.0 ≢ spent → (handled r (λ _. pure tt)).0 ≡ value tt
  handled_value (value a, v) h = refl
  handled_value (thrown e, v) h = refl
  handled_value (spent, v) h = absurd (h refl)

  abbrev Returns : World → Result Unit × World → Type 0
  Returns w r = (r.0 ≡ value tt) × Reached env.clock steady Owned w r

  release_value :
      (d : Option ℕ) (name : Text) (w : World)
      → (release_handle (record { dom = d; name = name }) w).0 ≡ value tt
  release_value none name w = refl
  release_value (some h) name w = refl

  stop-Returns : (vm : Option Domain) (w : World) → Owned w → Returns w (stop env cfg vm w)
  stop-Returns none w o = (refl, pure-Safe env.clock steady Owned tt w o)
  stop-Returns (some vm) w o =
      (value_of (handled (attempt_stop vm w) (λ _. pure tt)) caught_value, whole w o)
    where
      caught : S (catch (attempt_stop vm) (λ _. pure tt))
      caught =
          catch-Safe env.clock steady Owned (attempt_stop vm) _ (attempt_stop-Safe vm)
            (λ _. pure-Safe env.clock steady Owned tt)

      forget : M Unit
      forget = modify λ w. record w { vm = none }

      forget-Safe : S forget
      forget-Safe =
          modify-Safe env.clock steady Owned _ (λ v i. record { only = i.only }) (λ v. refl)

      whole : S (catch (attempt_stop vm) (λ _. pure tt) >> (release_handle vm >> forget))
      whole = >>-Safe env.clock steady Owned (catch (attempt_stop vm) (λ _. pure tt)) _ caught (
          >>-Safe env.clock steady Owned (release_handle vm) forget
            (release_handle-Safe env steady Owned lenient vm) forget-Safe)

      caught_value : (handled (attempt_stop vm w) (λ _. pure tt)).0 ≡ value tt
      caught_value = handled_value (attempt_stop vm w) (attempt_stop-Safe vm w o).in_fuel

      forgets : (r : Result Unit × World) → r.0 ≡ value tt → (continue r (λ _. forget)).0 ≡ value tt
      forgets (value a, v) e = refl
      forgets (thrown x, v) e = cc e
      forgets (spent, v) e = cc e

      value_of :
          (r : Result Unit × World)
          → r.0 ≡ value tt
          → (continue r (λ _. release_handle vm >> forget)).0 ≡ value tt
      value_of (value a, v) e = forgets (release_handle vm v) (release_value vm.dom vm.name v)
      value_of (thrown x, v) e = cc e
      value_of (spent, v) e = cc e

  abbrev Cleared : World → Result Unit × World → Type 0
  Cleared w r = (r.0 ≡ value tt) × Reached env.clock steady Bare w r

  abbrev clear : M Unit
  clear = gets (λ w. w.overlay) >>= λ overlay.
      remove_file overlay >> modify (λ w. record w { overlay = [] })

  nameless : (s : Text) → is_empty s ≡ true → s ≡ []
  nameless [] e = refl
  nameless (c ∷ s) e = cc e

  clear-Cleared : (w : World) → Owned w → Cleared w (clear w)
  unfolding remove_file
  clear-Cleared w o =
      if_both
        (λ (m : M Unit). Cleared w (continue (m w) (λ _. modify (λ v. record v { overlay = [] }))))
        (is_empty w.overlay) _ _
        (λ none_held. (
          refl,
          record {
            in_fuel = λ e. cc e;
            holds = record {
              none_left =
                  Only-nameless w.calls
                    (subst (λ q. Only q w.calls) (nameless w.overlay none_held) o.only);
              no_overlay = refl;
            };
            later = le_refl (env.clock w.calls);
          },
        ))
        (λ _. (
          refl,
          record {
            in_fuel = λ e. cc e;
            holds = record { none_left = Only-removed w.overlay w.calls o.only; no_overlay = refl };
            later = steady.forward (removed w.overlay) w.calls;
          },
        ))

  after-Cleared :
      (w : World) (r : Result Unit × World) → Returns w r → Cleared w (continue r (λ _. clear))
  after-Cleared w (value a, v) x =
      let (e, y) = clear-Cleared v x.1.holds in
      (e, record { in_fuel = y.in_fuel; holds = y.holds; later = le_trans x.1.later y.later })
  after-Cleared w (thrown e, v) x = cc x.0
  after-Cleared w (spent, v) x = cc x.0

  -- The release of the shared guest always returns, and leaves no overlay.
  pub release_vm-Cleared : (w : World) → Owned w → Cleared w (release_vm env cfg w)
  unfolding release_vm
  release_vm-Cleared w o = after-Cleared w (stop env cfg w.vm w) (stop-Returns w.vm w o)

  shared-Stores : Stores env steady cfg patient Owned lenient Bare (λ q w. record w { overlay = q })
  shared-Stores = record {
    counted = λ n w b. record { none_left = b.none_left; no_overlay = b.no_overlay };
    fails = λ argv rc file w bad b. record {
      none_left = NoneMade-failed argv rc file w.calls bad b.none_left;
      no_overlay = b.no_overlay;
    };
    makes = λ q argv rc file w last named b. record {
      only = NoneMade-made q argv rc file w.calls last named b.none_left;
    };
    same_calls = λ q w. refl;
    weaker = λ w b. Bare-Owned w b;
    removes = λ q w o. record { only = Only-after_removed w.overlay q w.calls o.only };
  }

  boot_shared-Safe : S (boot_shared env cfg)
  unfolding boot_shared
  boot_shared-Safe w o =
      let (returns, cleared) = release_vm-Cleared w o in
      continue_value env.clock steady Owned Bare w tt (release_vm env cfg w) _ returns cleared.holds
        cleared.later
        λ v b later.
          let booted =
            boot_fresh_vm-Reached env steady cfg patient Owned lenient Bare _ shared-Stores v b in
          continue_to env.clock steady Owned Owned w (boot_fresh_vm env cfg (set_overlay env cfg) v)
            _ booted.in_fuel booted.holds (le_trans later booted.later) (λ u i. i)
            (λ vm u i later2. record {
              in_fuel = λ e. cc e;
              holds = record { only = i.only };
              later = later2;
            })

  reuse_valid-Safe : (d : Option ℕ) (vm : Domain) → S (reuse_valid env cfg d vm)
  reuse_valid-Safe none vm = boot_shared-Safe
  reuse_valid-Safe (some h) vm =
      >>=-Safe env.clock steady Owned (state env vm) _ (state-Safe env steady Owned lenient vm)
        λ st.
          if-Safe env.clock steady Owned (same_state st gone) _ _ boot_shared-Safe
            (pure-Safe env.clock steady Owned vm)

  reuse-Safe : (vm : Option Domain) → S (reuse env cfg vm)
  reuse-Safe none = boot_shared-Safe
  reuse-Safe (some vm) = reuse_valid-Safe vm.dom vm

  -- The shared guest, booted or kept.
  pub ensure_vm-Safe : S (ensure_vm env cfg)
  unfolding ensure_vm
  ensure_vm-Safe w o = reuse-Safe w.vm w o
