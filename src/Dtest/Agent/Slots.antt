-- ===== src/Dtest/Agent/Slots.antt =====
-- dtest/src/agent_service.cpp: the atomic counter that limits the tasks an agent runs at once.
use computing_test_plat.Base.{
  ℕ, suc, ◌+◌, ◌-◌, ◌^◌, ◌%◌, ◌≤◌, ◌<◌, ◌≡◌, refl, ltb, if◌then◌else◌, if_both, arith,
}

-- The calls that run a process, the refused calls that have yet to take their count back, and the
-- counter, an `unsigned`.
pub record Calls : Type 0 where
  pub running : ℕ
  pub refused : ℕ
  pub counter : ℕ

abbrev pub unsigned_mod : ℕ
unsigned_mod = 2 ^ 32

abbrev pub idle : Calls
idle = record { running = 0; refused = 0; counter = 0 }

-- `running_.fetch_add(1) >= slots`.
unfoldable pub enter : ℕ → Calls → Calls
enter slots c =
    if ltb c.counter slots
    then record c { running = c.running + 1; counter = (c.counter + 1) % unsigned_mod }
    else record c { refused = c.refused + 1; counter = (c.counter + 1) % unsigned_mod }

-- `running_.fetch_sub(1)`.
abbrev pub less_one : ℕ → ℕ
less_one n = (n + (unsigned_mod - 1)) % unsigned_mod

-- The steps of the calls, in any order; a host has fewer than 2^32 calls at once.
pub data Running (slots : ℕ) : Calls → Type 0 where
  at_start : Running slots idle
  entered :
      {c : Calls}
      → Running slots c
      → c.running + c.refused + 1 < unsigned_mod
      → Running slots (enter slots c)
  finished :
      {c : Calls} {n : ℕ}
      → Running slots c
      → c.running ≡ suc n
      → Running slots (record c { running = n; counter = less_one c.counter })
  taken_back :
      {c : Calls} {n : ℕ}
      → Running slots c
      → c.refused ≡ suc n
      → Running slots (record c { refused = n; counter = less_one c.counter })

record Limited (slots : ℕ) (c : Calls) : Type 0 where
  pub exact : c.counter ≡ c.running + c.refused
  pub fits : c.counter < unsigned_mod
  pub few : c.running ≤ slots

enter-Limited :
    (slots : ℕ) (c : Calls)
    → c.running + c.refused + 1 < unsigned_mod
    → Limited slots c
    → Limited slots (enter slots c)
unfolding enter
enter-Limited slots c room l =
    let exact = l.exact in
    let few = l.few in
    if_both (Limited slots) (ltb c.counter slots) _ _
      (λ free. record {
        exact = omega (arith, exact, room);
        fits = omega arith;
        few = ground (arith, free, exact);
      })
      (λ full. record { exact = omega (arith, exact, room); fits = omega arith; few = few })

Running-Limited : (slots : ℕ) (c : Calls) → Running slots c → Limited slots c
Running-Limited slots c at_start = record { exact = refl; fits = omega arith; few = omega arith }
Running-Limited slots c (entered {c = b} r room) =
    enter-Limited slots b room (Running-Limited slots b r)
Running-Limited slots c (finished {c = b} {n = n} r one) =
    let l = Running-Limited slots b r in
    let exact = l.exact in
    let fits = l.fits in
    record {
      exact = omega (arith, exact, fits, one);
      fits = omega arith;
      few = omega (arith, l.few, one);
    }
Running-Limited slots c (taken_back {c = b} {n = n} r one) =
    let l = Running-Limited slots b r in
    let exact = l.exact in
    let fits = l.fits in
    record { exact = omega (arith, exact, fits, one); fits = omega arith; few = l.few }

-- Whatever the interleaving of the calls, also where refused calls have yet to take their count back,
-- an agent runs at most as many processes at once as it has slots, where fewer than 2^32 calls are in
-- the agent at once.
pub running-le-slots : (slots : ℕ) (c : Calls) → Running slots c → c.running ≤ slots
running-le-slots slots c r = (Running-Limited slots c r).few
