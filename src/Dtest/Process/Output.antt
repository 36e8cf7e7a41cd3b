-- ===== src/Dtest/Process/Output.antt =====
-- dtest/src/process.cpp, `run_process`: the output of a run is what its streams delivered, cut off.
use computing_test_plat.Base.{
  ℕ, zero, suc, ◌+◌, ◌*◌, ◌≡◌, ◌⊎◌, ap, sym, Option, some, Bool, true, false, inl, inr, if_both,
  Text, [], ltb, leb, subst, not,
}
use mathlib.Core.Option.{some-injective}
use computing_test_plat.Dtest.Process.{
  RunSpec, RunOutput, launch_failed, Host, Parent, tick, read_ready, watch, wait_grace, terminate,
  judge, WaitStatus, finish, ms,
}
use computing_test_plat.Dtest.Process.Launch.{Outcome, launched, collect, run_process}
use computing_test_plat.Dtest.Process.Cases.{run_process-cases}
use computing_test_plat.Dtest.Process.Capture.{
  Captured, IsCurrent, delivered, launched-IsCurrent, receive, drain_both, read_ready-IsCurrent,
}

tick-IsCurrent :
    (h : Host) (limit : ℕ) (p : Parent) → IsCurrent h limit p → IsCurrent h limit (tick p)
tick-IsCurrent h limit p c = record {
  out_open = c.out_open;
  err_open = c.err_open;
  texts = c.texts;
}

watch-IsCurrent :
    (fuel : ℕ) (h : Host) (limit deadline : ℕ) (p : Parent) (b : Bool) (q : Parent)
    → IsCurrent h limit p
    → watch fuel h limit deadline p ≡ some (b, q)
    → IsCurrent h limit q
unfolding watch
watch-IsCurrent zero h limit deadline p b q c e = cc e
watch-IsCurrent (suc fuel) h limit deadline p b q c e =
    let now = read_ready h limit p in
    let read = read_ready-IsCurrent h limit p c in
    let Goal : Option (Bool × Parent) → Type 0 = λ x. x ≡ some (b, q) → IsCurrent h limit q in
    if_both Goal (not now.returned) _ _ (λ _ e. absurd (cc e))
      (λ _.
        if_both Goal (h.gone p.rounds) _ _
          (λ _ e.
            subst (IsCurrent h limit) (ap (λ (x : Bool × Parent). x.1) (some-injective _ _ e)) read)
          (λ _.
            if_both Goal (leb deadline (h.clock p.clocks)) _ _
              (λ _ e.
                subst (IsCurrent h limit) (ap (λ (x : Bool × Parent). x.1) (some-injective _ _ e))
                  (tick-IsCurrent h limit now read))
              (λ _ e.
                watch-IsCurrent fuel h limit deadline (tick now) b q
                  (tick-IsCurrent h limit now read) e)))
      e

wait_grace-IsCurrent :
    (fuel : ℕ) (h : Host) (limit grace : ℕ) (p q : Parent)
    → IsCurrent h limit p
    → wait_grace fuel h limit grace p ≡ some q
    → IsCurrent h limit q
unfolding wait_grace
wait_grace-IsCurrent zero h limit grace p q c e = cc e
wait_grace-IsCurrent (suc fuel) h limit grace p q c e =
    let ticked = tick-IsCurrent h limit p c in
    let read = read_ready-IsCurrent h limit (tick p) ticked in
    let Goal : Option Parent → Type 0 = λ x. x ≡ some q → IsCurrent h limit q in
    if_both Goal (ltb (h.clock p.clocks) grace) _ _
      (λ _.
        if_both Goal (not (read_ready h limit (tick p)).returned) _ _ (λ _ e. absurd (cc e))
          (λ _.
            if_both Goal (h.gone p.rounds) _ _
              (λ _ e. subst (IsCurrent h limit) (some-injective _ _ e) read)
              (λ _ e.
                wait_grace-IsCurrent fuel h limit grace (read_ready h limit (tick p)) q read e)))
      (λ _ e. subst (IsCurrent h limit) (some-injective _ _ e) ticked) e

terminate-IsCurrent :
    (fuel : ℕ) (h : Host) (limit : ℕ) (late : Bool) (p q : Parent)
    → IsCurrent h limit p
    → terminate fuel h limit late p ≡ some q
    → IsCurrent h limit q
unfolding terminate
terminate-IsCurrent fuel h limit false p q c e = subst (IsCurrent h limit) (some-injective _ _ e) c
terminate-IsCurrent fuel h limit true p q c e =
    wait_grace-IsCurrent fuel h limit (h.clock p.clocks + 1000 * ms) (tick p) q
      (tick-IsCurrent h limit p c) e

-- The texts stay, whatever the end of the child.
judge-Captured :
    (late : Bool) (timeout : ℕ) (s : WaitStatus) (limit : ℕ) (v w : Text) (r : RunOutput)
    → Captured limit v w r.out r.err r.truncated
    → let r' = judge late timeout s r in Captured limit v w r'.out r'.err r'.truncated
unfolding judge
judge-Captured true timeout s limit v w r c = c
judge-Captured false timeout (WaitStatus.with_code n) limit v w r c = c
judge-Captured false timeout (WaitStatus.by_signal n) limit v w r c = c
judge-Captured false timeout WaitStatus.otherwise limit v w r c = c

-- The bytes that the two streams delivered in `n` rounds and in the last reads.
abbrev pub out_after : Host → ℕ → Text
out_after h n = (receive (delivered h.out_reads n) h.last_out).1

abbrev pub err_after : Host → ℕ → Text
err_after h n = (receive (delivered h.err_reads n) h.last_err).1

collect-Captured :
    (h : Host) (spec : RunSpec) (late : Bool) (p : Parent)
    → IsCurrent h spec.max_output_bytes p
    → let r = collect h spec late p in
      Captured spec.max_output_bytes
        (out_after h p.rounds)
        (err_after h p.rounds)
        r.out
        r.err
        r.truncated
unfolding collect finish
collect-Captured h spec late p c =
    let limit = spec.max_output_bytes in
    let out = delivered h.out_reads p.rounds in
    let err = delivered h.err_reads p.rounds in
    let (texts, _, _) =
      drain_both limit out err h.last_out h.last_err p.out p.err p.truncated c.texts in
    rw (c.out_open, c.err_open)
      (judge-Captured late spec.timeout h.status limit (out_after h p.rounds) (err_after h p.rounds)
        _ texts)

-- Every result of a run either is that the command never ran its program, with no output at all, or
-- holds exactly the first `max_output_bytes` bytes of all that its standard output delivered up to some
-- round and in the reads after its end, likewise for its standard error, and is marked as truncated
-- exactly when one of the two delivered more than that.
pub run_process-Captured :
    (fuel : ℕ) (h : Host) (spec : RunSpec) (o : Outcome)
    → run_process fuel h spec ≡ some o
    → ((o.0.outcome ≡ launch_failed) × (o.0.out ≡ []) × (o.0.err ≡ []) × (o.0.truncated ≡ false))
      ⊎ ((n : ℕ) × Captured spec.max_output_bytes
            (out_after h n)
            (err_after h n)
            o.0.out
            o.0.err
            o.0.truncated)
unfolding finish
run_process-Captured fuel h spec o e = elim (run_process-cases fuel h spec o e) [
  | inl (m, fails) ↦ inl (
    ap (λ (r : RunOutput). r.outcome) fails,
    ap (λ (r : RunOutput). r.out) fails,
    ap (λ (r : RunOutput). r.err) fails,
    ap (λ (r : RunOutput). r.truncated) fails,
  )
  | inr (w, _) ↦
      let at_end =
        watch-IsCurrent fuel h spec.max_output_bytes _ launched w.late w.at_end
          (launched-IsCurrent h spec.max_output_bytes) w.watched in
      let after =
        terminate-IsCurrent fuel h spec.max_output_bytes w.late w.at_end w.after at_end w.ended in
      inr (
        w.after.rounds,
        subst
            (λ (r : RunOutput).
              Captured spec.max_output_bytes (out_after h w.after.rounds)
                (err_after h w.after.rounds) r.out r.err r.truncated)
            (sym w.collected) (collect-Captured h spec w.late w.after after),
      )
]
