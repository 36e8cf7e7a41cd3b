-- ===== src/Dtest/Scheduler/Progress.antt =====
-- dtest/src/scheduler.cpp: states in which no thread can go on.
use computing_test_plat.Base.{
  ℕ, ◌<◌, ◌≡◌, ◌⊎◌, inl, inr, List, true, false, arith, ltb, length, Bool-cases, any_below-true,
  sum_below-pos, sum_below-zeros,
}
use computing_test_plat.Dtest.Types.{Task, AgentInfo}
use computing_test_plat.Dtest.Scheduler.{
  Run, Reach, waiting, exited, able, workers, size_mod, eligible, has_fresh_candidate,
  any_live_capable,
}
use computing_test_plat.Dtest.Scheduler.Accounting.{unfinished, unfinished-pos, open_flag}
use computing_test_plat.Dtest.Scheduler.Ownership.{holders}
use computing_test_plat.Dtest.Scheduler.Reachable.{Inv, Reach-Inv}
use computing_test_plat.Dtest.Scheduler.Parked.{Parked, Reach-Parked}
use computing_test_plat.Dtest.Scheduler.Threads.{HasSlots, has_worker}
use computing_test_plat.Dtest.Scheduler.Served.{Servable, ServedAll}

unfinished_task :
    (agents : List AgentInfo) (tasks : List Task) (s : Run)
    → 0 < unfinished agents tasks s
    → (t : ℕ) × (t < length tasks) × ((s.st t).done ≡ false)
unfolding unfinished
unfinished_task agents tasks s pos =
    let (t, h, flagged) = sum_below-pos (length tasks) (λ j. open_flag (s.st j)) pos in
    (t, h, ground arith)

module _ (agents : List AgentInfo) (tasks : List Task) where
  -- No thread can go on unless `cv_.wait` returns by itself.
  abbrev pub Quiet : Run → Type 0
  Quiet s =
      (w : ℕ) → w < length (workers agents tasks) → (s.places w ≡ waiting) ⊎ (s.places w ≡ exited)

  -- `execute` can join its threads, and every task has a verdict.
  abbrev pub Finished : Run → Type 0
  Finished s =
      ((w : ℕ) → w < length (workers agents tasks) → s.places w ≡ exited)
      × ((t : ℕ) → t < length tasks → (s.st t).done ≡ true)

  module _ (s : Run) (i : Inv agents tasks s) (parked : Parked agents tasks s)
      (quiet : Quiet s) where
    no_holder : (t : ℕ) → holders agents tasks t s.places ≡ 0
    unfolding holders
    no_holder t = sum_below-zeros _ _ (λ w h. ground (arith, quiet w h))

    not_running : (t : ℕ) → t < length tasks → (s.st t).running ≡ false
    not_running t h = let none_holds = no_holder t in let count = i.owns.owned t h in ground arith

    module _ (slots : HasSlots agents) (left : 0 < s.remaining) where
      -- Every live agent has a thread that found nothing to do.
      live_idle :
          (a t : ℕ)
          → a < length agents
          → s.alive a ≡ true
          → t < length tasks
          → eligible agents tasks a s t ≡ false
      live_idle a t ha live h =
          let (w, inside, serves) = has_worker agents tasks a slots ha in
          elim (quiet w inside) [
            | inl waits ↦ let (_, _, nothing) = (parked w).idle waits in rw serves at (nothing t h)
            | inr gone ↦ elim ((parked w).left gone) [
              | inl none_left ↦ absurd (omega arith)
              | inr dead ↦
                  let dead' : s.alive a ≡ false = rw serves at dead in absurd (ground arith)
            ]
          ]

      fresh_elsewhere :
          (a t : ℕ)
          → (s.st t).done ≡ false
          → (s.st t).running ≡ false
          → able agents tasks a t ≡ true
          → eligible agents tasks a s t ≡ false
          → has_fresh_candidate agents tasks t a s ≡ true
      unfolding eligible
      fresh_elsewhere a t d r may refused = ground arith

      not_fresh :
          (b t : ℕ)
          → (s.st t).done ≡ false
          → (s.st t).running ≡ false
          → able agents tasks b t ≡ true
          → (s.st t).tried b ≡ false
          → eligible agents tasks b s t ≡ true
      unfolding eligible
      not_fresh b t d r may new = ground arith

      no_fresh :
          (a t : ℕ)
          → t < length tasks
          → (s.st t).done ≡ false
          → (s.st t).running ≡ false
          → has_fresh_candidate agents tasks t a s ≡ true
          → ⊥
      unfolding has_fresh_candidate
      no_fresh a t h d r found =
          let (b, hb, tests) = any_below-true _ _ found in
          let live : s.alive b ≡ true = ground arith in
          let may : able agents tasks b t ≡ true = ground arith in
          let new : (s.st t).tried b ≡ false = ground arith in
          let refused = live_idle b t hb live h in
          let accepted = not_fresh b t d r may new in absurd (ground arith)

      no_pending :
          (t : ℕ) → t < length tasks → Servable agents tasks t s → (s.st t).done ≡ false → ⊥
      unfolding any_live_capable
      no_pending t h servable d =
          let r = not_running t h in
          let (a, ha, tests) = any_below-true _ _ (servable d r) in
          let may : able agents tasks a t ≡ true = ground arith in
          let live : s.alive a ≡ true = ground arith in
          no_fresh a t h d r (fresh_elsewhere a t d r may (live_idle a t ha live h))

    Quiet-Finished : HasSlots agents → ServedAll agents tasks s → Finished s
    Quiet-Finished slots served = (all_exited, all_done)
      where
        nothing_left : s.remaining ≡ 0
        nothing_left = elim (Bool-cases (ltb 0 s.remaining)) [
          | inr none_left ↦ ground arith
          | inl left ↦
              let pos : 0 < s.remaining = ground arith in
              let exact = i.counted.exact in
              let (t, h, undone) = unfinished_task agents tasks s (omega arith) in
              absurd (no_pending slots pos t h (served t h) undone)
        ]

        all_done : (t : ℕ) → t < length tasks → (s.st t).done ≡ true
        all_done t h = elim (Bool-cases (s.st t).done) [
          | inl d ↦ d
          | inr d ↦
              let exact = i.counted.exact in
              let pos = unfinished-pos agents tasks s t h d in
              absurd (omega (arith, exact, pos, nothing_left))
        ]

        all_exited : (w : ℕ) → w < length (workers agents tasks) → s.places w ≡ exited
        all_exited w h = elim (quiet w h) [
          | inr gone ↦ gone
          | inl waits ↦
              let (some_left, _, _) = (parked w).idle waits in
              absurd (omega (arith, some_left, nothing_left))
        ]

  -- No interleaving deadlocks in a state where every pending task has a live agent that can run it:
  -- if no thread can go on, all have returned and every task has a verdict.
  pub no_deadlock :
      (s : Run)
      → length tasks < size_mod
      → HasSlots agents
      → Reach agents tasks s
      → ServedAll agents tasks s
      → Quiet s
      → Finished s
  no_deadlock s small slots r served quiet =
      Quiet-Finished s (Reach-Inv agents tasks s small r) (Reach-Parked agents tasks s small r)
        quiet slots served
