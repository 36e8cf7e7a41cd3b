-- ===== src/Vmtest/Machine/Waiting.antt =====
-- vmtest/src/util.cpp, `wait_until`: with a fuel above the milliseconds to wait, it ends.
use computing_test_plat.Base.{ℕ, zero, suc, ◌+◌, ◌<◌, ◌≤◌, refl, Bool, if_both, leb, arith}
use computing_test_plat.Vmtest.Machine.{
  Result, value, thrown, spent, History, read_clock, slept, Env, World, M, continue, logged,
  wait_loop, wait_until,
}
use computing_test_plat.Vmtest.Machine.Safe.{Steady, Reached, Safe, Lenient}

module _ (clock : History → ℕ) (steady : Steady clock) (I : World → Type 0)
    (lenient : Lenient clock steady I) where
  continue_at :
      {A B : Type 0} (w : World) (r : Result A × World) (f : A → M B)
      → Reached clock steady I w r
      → ((a : A) (v : World)
          → I v
          → clock w.calls ≤ clock v.calls
          → Reached clock steady I w (f a v))
      → Reached clock steady I w (continue r f)
  continue_at w (value a, v) f x s = s a v x.holds x.later
  continue_at w (thrown e, v) f x s = record {
    in_fuel = λ t. cc t;
    holds = x.holds;
    later = x.later;
  }
  continue_at w (spent, v) f x s = absurd (x.in_fuel refl)

  wait_loop-Reached :
      (fuel deadline interval : ℕ) (pred : M Bool)
      → 0 < interval
      → Safe clock steady I pred
      → (w : World) → I w
      → 0 < fuel
      → deadline < clock w.calls + fuel
      → Reached clock steady I w (wait_loop clock fuel deadline interval pred w)
  unfolding wait_loop
  wait_loop-Reached zero deadline interval pred pos safe w i some_fuel enough = absurd (omega arith)
  wait_loop-Reached (suc fuel) deadline interval pred pos safe w i some_fuel enough =
      continue_at w (pred w) _ (safe w i) λ met v iv later.
        if_both (λ (m : M Bool). Reached clock steady I w (m v)) met _ _
          (λ _. record { in_fuel = λ e. cc e; holds = iv; later = later })
          (λ _.
            let v1 = logged read_clock v in
            let i1 = lenient.quiet read_clock v tt iv in
            let step = steady.forward read_clock v.calls in
            if_both (λ (m : M Bool). Reached clock steady I w (m v1))
              (leb deadline (clock v1.calls)) _ _
              (λ _. record { in_fuel = λ e. cc e; holds = i1; later = omega (arith, step, later) })
              (λ early.
                let before : clock v1.calls < deadline = ground (arith, early) in
                let v2 = logged (slept interval) v1 in
                let nap = steady.sleeps interval v1.calls in
                let rest =
                  wait_loop-Reached fuel deadline interval pred pos safe v2
                    (lenient.quiet (slept interval) v1 tt i1)
                    (omega (arith, before, step, later, enough))
                    (omega (arith, nap, step, later, enough, pos)) in
                record {
                  in_fuel = rest.in_fuel;
                  holds = rest.holds;
                  later = omega (arith, rest.later, nap, step, later);
                }))

pub wait_until-Safe :
    (env : Env) (steady : Steady env.clock) (I : World → Type 0)
    → Lenient env.clock steady I
    → (timeout interval : ℕ) (pred : M Bool) → timeout < env.fuel
    → 0 < interval
    → Safe env.clock steady I pred
    → Safe env.clock steady I (wait_until env timeout interval pred)
unfolding wait_until
wait_until-Safe env steady I lenient timeout interval pred enough pos safe w i =
    let w1 = logged read_clock w in
    let step = steady.forward read_clock w.calls in
    let rest =
      wait_loop-Reached env.clock steady I lenient env.fuel (env.clock w1.calls + timeout) interval
        pred pos safe w1 (lenient.quiet read_clock w tt i) (omega arith) (omega arith) in
    record { in_fuel = rest.in_fuel; holds = rest.holds; later = omega (arith, rest.later, step) }
