-- ===== src/Dtest/Process/Timing.antt =====
-- dtest/src/process.cpp, `run_process`: which of the deadline and the exit decides.
use mathlib.Core.Option.{some-injective}
use native.Mathlib.Nat.{add-zero}
use computing_test_plat.Base.{
  ℕ, zero, suc, ◌+◌, ◌*◌, ◌<◌, ◌≤◌, ◌≡◌, ◌↔◌, refl, ap, sym, ◌∙◌, subst, Option, some, Bool, true,
  false, if_both, ltb, leb, inl, inr, arith, >>=-eq-some, Bool-cases, not,
}
use computing_test_plat.Base.Int.{pos}
use computing_test_plat.Dtest.Process.{
  RunSpec, RunOutput, exited, timed_out, WaitStatus, with_code, by_signal, otherwise, Host, Parent,
  tick, read_ready, watch, ms, judge, finish, launch_failed, signaled,
}
use computing_test_plat.Dtest.Process.Launch.{Outcome, launched, collect, run_process, supervise}
use computing_test_plat.Dtest.Process.Cases.{
  Launches, Watches, run_process-cases, run_process-Launches, supervise-Watches,
}

-- In round `k` from round `r` and reading `c` of the clock on, the deadline has passed, and neither is
-- the child gone up to this round nor has the deadline passed before it.
pub record Late (h : Host) (deadline r c : ℕ) : Type 0 where
  pub k : ℕ
  pub there : (i : ℕ) → i < suc k → h.gone (r + i) ≡ false
  pub early : (i : ℕ) → i < k → h.clock (c + i) < deadline
  pub passed : deadline ≤ h.clock (c + k)

-- In round `k` the child is gone, and before it neither is the child gone nor has the deadline passed.
pub record Left (h : Host) (deadline r c : ℕ) : Type 0 where
  pub k : ℕ
  pub there : (i : ℕ) → i < k → h.gone (r + i) ≡ false
  pub early : (i : ℕ) → i < k → h.clock (c + i) < deadline
  pub gone : h.gone (r + k) ≡ true

abbrev Verdict : Host → ℕ → ℕ → ℕ → Bool → Type 0
Verdict h deadline r c true = Late h deadline r c
Verdict h deadline r c false = Left h deadline r c

-- What holds at the first and after it.
from_first :
    (P : ℕ → Type 0) (r k : ℕ)
    → P r
    → ((i : ℕ) → i < k → P (r + 1 + i))
    → (i : ℕ) → i < suc k
    → P (r + i)
from_first P r k first others zero h = subst P (omega arith) first
from_first P r k first others (suc i) h = subst P (omega arith) (others i (omega arith))

later :
    (h : Host) (deadline r c : ℕ) (b : Bool)
    → h.gone r ≡ false
    → h.clock c < deadline
    → Verdict h deadline (r + 1) (c + 1) b
    → Verdict h deadline r c b
later h deadline r c true there early v = record {
  k = suc v.k;
  there = from_first (λ n. h.gone n ≡ false) r (suc v.k) there v.there;
  early = from_first (λ n. h.clock n < deadline) c v.k early v.early;
  passed = subst (λ n. deadline ≤ h.clock n) (omega arith) v.passed;
}
later h deadline r c false there early v = record {
  k = suc v.k;
  there = from_first (λ n. h.gone n ≡ false) r v.k there v.there;
  early = from_first (λ n. h.clock n < deadline) c v.k early v.early;
  gone = subst (λ n. h.gone n ≡ true) (omega arith) v.gone;
}

watch-Verdict :
    (fuel : ℕ) (h : Host) (limit deadline : ℕ) (p : Parent) (b : Bool) (q : Parent)
    → watch fuel h limit deadline p ≡ some (b, q)
    → Verdict h deadline p.rounds p.clocks b
unfolding watch read_ready
watch-Verdict zero h limit deadline p b q e = cc e
watch-Verdict (suc fuel) h limit deadline p b q e =
    let now = read_ready h limit p in
    let V : Bool → Type 0 = Verdict h deadline p.rounds p.clocks in
    let Goal : Option (Bool × Parent) → Type 0 = λ x. x ≡ some (b, q) → V b in
    if_both Goal (not now.returned) _ _ (λ _ e. absurd (cc e))
      (λ _.
        if_both Goal (h.gone p.rounds) _ _
          (λ gone e. subst V (ap (λ (x : Bool × Parent). x.0) (some-injective _ _ e)) (record {
            k = 0;
            there = λ i lt. absurd (omega arith);
            early = λ i lt. absurd (omega arith);
            gone = rw (add-zero p.rounds) gone;
          }))
          (λ there.
            if_both Goal (leb deadline (h.clock p.clocks)) _ _
              (λ passed e.
                subst V (ap (λ (x : Bool × Parent). x.0) (some-injective _ _ e)) (record {
                  k = 0;
                  there = λ i lt. first (λ n. h.gone n ≡ false) p.rounds i lt there;
                  early = λ i lt. absurd (omega arith);
                  passed = rw (add-zero p.clocks) (ground (arith, passed));
                }))
              (λ early e.
                later h deadline p.rounds p.clocks b there (ground (arith, early))
                  (watch-Verdict fuel h limit deadline (tick now) b q e))))
      e
  where
    first : (P : ℕ → Type 0) (r i : ℕ) → i < 1 → P r → P (r + i)
    first P r i lt x = subst P (omega arith) x

-- The deadline of a run, in nanoseconds.
abbrev pub deadline_of : Host → RunSpec → ℕ
deadline_of h spec = h.clock 0 + spec.timeout * ms

-- The child is late, or it left in time, counted from the start.
abbrev pub IsLate : Host → RunSpec → Type 0
IsLate h spec = Late h (deadline_of h spec) 0 1

abbrev pub HasLeft : Host → RunSpec → Type 0
HasLeft h spec = Left h (deadline_of h spec) 0 1

IsLate-not_left : (h : Host) (deadline r c : ℕ) → Late h deadline r c → ¬ Left h deadline r c
IsLate-not_left h deadline r c x y = elim (Bool-cases (ltb x.k y.k)) [
  | inl after ↦
      let lt : x.k < y.k = ground (arith, after) in omega (arith, y.early x.k lt, x.passed)
  | inr before ↦ let le : y.k < suc x.k = ground (arith, before) in cc (x.there y.k le, y.gone)
]

judge-timed_out :
    (late : Bool) (timeout : ℕ) (s : WaitStatus) (r : RunOutput)
    → r.outcome ≡ launch_failed
    → ((judge late timeout s r).outcome ≡ timed_out) ↔ (late ≡ true)
unfolding judge
judge-timed_out true timeout s r e = (λ _. refl, λ _. refl)
judge-timed_out false timeout (with_code n) r e = (λ (f : exited ≡ timed_out). cc f, λ f. cc f)
judge-timed_out false timeout (by_signal n) r e = (λ (f : signaled ≡ timed_out). cc f, λ f. cc f)
judge-timed_out false timeout otherwise r e = (λ (f : r.outcome ≡ timed_out). cc (e, f), λ f. cc f)

-- An exit with a code, in the output.
abbrev pub ExitedWith : ℕ → RunOutput → Type 0
ExitedWith n r = (r.outcome ≡ exited) × (r.exit_code ≡ pos n)

judge-ExitedWith :
    (late : Bool) (timeout : ℕ) (s : WaitStatus) (r : RunOutput) (n : ℕ)
    → r.outcome ≡ launch_failed
    → ExitedWith n (judge late timeout s r) ↔ ((late ≡ false) × (s ≡ with_code n))
unfolding judge
judge-ExitedWith true timeout s r n e =
    (λ (f : ExitedWith n (record r { outcome = timed_out })). cc f.0, λ f. cc f.0)
judge-ExitedWith false timeout (with_code m) r n e = (λ f. (refl, cc f.1), λ f. (refl, cc f.1))
judge-ExitedWith false timeout (by_signal m) r n e =
    (λ (f : ExitedWith n (record r { outcome = signaled })). cc f.0, λ f. cc f.1)
judge-ExitedWith false timeout otherwise r n e = (λ (f : ExitedWith n r). cc (e, f.0), λ f. cc f.1)

-- Where the program starts, a result comes from watching it.
Launches-Watches :
    (fuel : ℕ) (h : Host) (spec : RunSpec) (o : Outcome)
    → Launches h spec
    → run_process fuel h spec ≡ some o
    → Watches fuel h spec o.0
Launches-Watches fuel h spec o l e =
    let (p, s, f) =
      >>=-eq-some (supervise fuel h spec) _ (sym (run_process-Launches fuel h spec l) ∙ e) in
    subst (Watches fuel h spec) (ap (λ (x : Outcome). x.0) (some-injective _ _ f))
      (supervise-Watches fuel h spec p s)

-- What a run says of its end, for an outcome that no command has that did not start.
run_process-decides :
    (fuel : ℕ) (h : Host) (spec : RunSpec) (o : Outcome) (P : RunOutput → Type 0) (late : Bool)
    (Q : Type 0)
    → ((n : ℕ) (r : RunOutput) → r.outcome ≡ launch_failed → ¬ P (finish h n r))
    → ((b : Bool) (p : Parent) → P (collect h spec b p) ↔ ((b ≡ late) × Q))
    → run_process fuel h spec ≡ some o
    → P o.0 ↔ (Launches h spec × Verdict h (deadline_of h spec) 0 1 late × Q)
run_process-decides fuel h spec o P late Q fails decides e = (to, from)
  where
    verdict : (w : Watches fuel h spec o.0) → Verdict h (deadline_of h spec) 0 1 w.late
    verdict w =
        watch-Verdict fuel h spec.max_output_bytes (deadline_of h spec) launched w.late w.at_end
          w.watched

    to : P o.0 → Launches h spec × Verdict h (deadline_of h spec) 0 1 late × Q
    to x = elim (run_process-cases fuel h spec o e) [
      | inl (m, f) ↦ absurd (fails 1 _ refl (subst P f x))
      | inr (w, l) ↦
          let (same, q) = (decides w.late w.after).0 (subst P w.collected x) in
          (l, subst (Verdict h (deadline_of h spec) 0 1) same (verdict w), q)
    ]

    agrees :
        (b c : Bool)
        → Verdict h (deadline_of h spec) 0 1 b
        → Verdict h (deadline_of h spec) 0 1 c
        → b ≡ c
    agrees true true x y = refl
    agrees true false x y = absurd (IsLate-not_left h (deadline_of h spec) 0 1 x y)
    agrees false true x y = absurd (IsLate-not_left h (deadline_of h spec) 0 1 y x)
    agrees false false x y = refl

    from : Launches h spec × Verdict h (deadline_of h spec) 0 1 late × Q → P o.0
    from (l, v, q) =
        let w = Launches-Watches fuel h spec o l e in
        subst P (sym w.collected) ((decides w.late w.after).1 (agrees w.late late (verdict w) v, q))

-- A run that ends says that the command timed out exactly when its program started and in some round
-- the deadline, the given milliseconds from the start, had passed on the clock, with the child there up
-- to this round and the deadline not passed before it.
pub run_process-timed_out_iff :
    (fuel : ℕ) (h : Host) (spec : RunSpec) (o : Outcome)
    → run_process fuel h spec ≡ some o
    → (o.0.outcome ≡ timed_out) ↔ (Launches h spec × IsLate h spec)
unfolding collect finish
run_process-timed_out_iff fuel h spec o e =
    let (to, from) =
      run_process-decides fuel h spec o (λ r. r.outcome ≡ timed_out) true (Unit {0})
        (λ n r f g. cc (f, g))
        (λ b p.
          let (x, y) = judge-timed_out b spec.timeout h.status _ refl in
          (λ t. (x t, tt), λ t. y t.0))
        e in
    (λ t. ((to t).0, (to t).1), λ t. from (t.0, t.1, tt))

-- A run that ends says that the command exited with a code exactly when its program started, the child
-- was gone in some round before which the deadline had not passed, and the status that the child was
-- reaped with is this code.
pub run_process-exited_iff :
    (fuel : ℕ) (h : Host) (spec : RunSpec) (o : Outcome) (n : ℕ)
    → run_process fuel h spec ≡ some o
    → ExitedWith n o.0 ↔ (Launches h spec × HasLeft h spec × (h.status ≡ with_code n))
unfolding collect finish
run_process-exited_iff fuel h spec o n e =
    run_process-decides fuel h spec o (ExitedWith n) false (h.status ≡ with_code n)
      (λ k r f g. cc (f, g.0)) (λ b p. judge-ExitedWith b spec.timeout h.status _ n refl) e
