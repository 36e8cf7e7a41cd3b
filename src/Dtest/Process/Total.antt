-- ===== src/Dtest/Process/Total.antt =====
-- dtest/src/process.cpp, `run_process`: the loops end, since the clock goes on, where the
-- reads of every round do.
use native.Mathlib.Nat.{le_refl}
use computing_test_plat.Base.{
  ℕ, zero, suc, ◌+◌, ◌*◌, ◌<◌, ◌≤◌, ◌≡◌, refl, ap, ◌∙◌, List, [], ◌∷◌, ◌++◌, Option, none, some,
  Bool, true, false, if◌then◌else◌, ltb, leb, arith, ◌>>=◌, is_empty, subst, ◌-◌, ◌&&◌, not, Text,
}
use computing_test_plat.Dtest.Process.{
  RunSpec, Pipe, out_pipe, err_pipe, exec_pipe, Call, piped, Host, Parent, tick, read_ready, watch,
  wait_grace, terminate, ms, ReadResult, bytes, end_of_file, no_data, read_failed, drain,
  drain_open,
}
use computing_test_plat.Dtest.Process.Launch.{
  Outcome, program, launched, supervise, after_exec, exec_error, run_child, fork_child, or_fail,
  make_pipes, run_process, last_returns,
}

-- The clock does not go back, and passes every time.
pub record Advances (h : Host) : Type 0 where
  pub monotone : (n : ℕ) → h.clock n ≤ h.clock (suc n)
  pub passes : (t : ℕ) → (n : ℕ) × (t ≤ h.clock n)

-- The reads come to an end: the stream ends, or has no data for once, or fails.
unfoldable pub Stops : List ReadResult → Type 0
Stops [] = ⊥
Stops (bytes chunk ∷ reads) = Stops reads
Stops (end_of_file ∷ reads) = Unit
Stops (ReadResult.interrupted ∷ reads) = Stops reads
Stops (no_data ∷ reads) = Unit
Stops (read_failed ∷ reads) = Unit

-- In every round the command pauses or ends its output at some point, so do the last reads after its end,
-- and the read that waits for its `exec` is answered.
pub record Pauses (h : Host) : Type 0 where
  pub out : (n : ℕ) → Stops (h.out_reads n)
  pub err : (n : ℕ) → Stops (h.err_reads n)
  pub last_out : Stops h.last_out
  pub last_err : Stops h.last_err
  pub answer : Option ℕ
  pub answered : exec_error h.exec_reads ≡ some answer

drain-returns :
    (limit : ℕ) (reads : List ReadResult) (into : Text) (truncated : Bool)
    → Stops reads
    → (drain limit reads into truncated).returns ≡ true
unfolding drain Stops
drain-returns limit [] into t s = elim s [ ]
drain-returns limit (bytes chunk ∷ reads) into t s = drain-returns limit reads _ _ s
drain-returns limit (end_of_file ∷ reads) into t s = refl
drain-returns limit (ReadResult.interrupted ∷ reads) into t s = drain-returns limit reads into t s
drain-returns limit (no_data ∷ reads) into t s = refl
drain-returns limit (read_failed ∷ reads) into t s = refl

drain_open-returns :
    (open_now : Bool) (limit : ℕ) (reads : List ReadResult) (into : Text) (truncated : Bool)
    → Stops reads
    → (drain_open open_now limit reads into truncated).returns ≡ true
unfolding drain_open
drain_open-returns true limit reads into t s = drain-returns limit reads into t s
drain_open-returns false limit reads into t s = refl

both_true : {a b : Bool} → a ≡ true → b ≡ true → (a && b) ≡ true
both_true x y = ground (arith, x, y)

read_ready-returned :
    (h : Host) (limit : ℕ) (p : Parent) → Pauses h → (read_ready h limit p).returned ≡ true
unfolding read_ready
read_ready-returned h limit p pauses =
    both_true (drain_open-returns p.out_open limit (h.out_reads p.rounds) _ _ (pauses.out p.rounds))
      (drain_open-returns p.err_open limit (h.err_reads p.rounds) _ _ (pauses.err p.rounds))

last_returns_lem :
    (h : Host) (spec : RunSpec) (p : Parent) → Pauses h → last_returns h spec p ≡ true
unfolding last_returns
last_returns_lem h spec p pauses =
    both_true (drain_open-returns p.out_open spec.max_output_bytes h.last_out _ _ pauses.last_out)
      (drain_open-returns p.err_open spec.max_output_bytes h.last_err _ _ pauses.last_err)

-- One result for all fuel from some amount on.
abbrev pub Ends : {A : Type 0} → (ℕ → Option A) → Type 0
Ends {A} f = (least : ℕ) × (x : A) × ((fuel : ℕ) → least ≤ fuel → f fuel ≡ some x)

Ends-some : {A : Type 0} (x : A) → Ends (λ fuel. some x)
Ends-some x = (0, x, λ fuel _. refl)

Ends->>= :
    {A B : Type 0} (f : ℕ → Option A) (g : A → ℕ → Option B)
    → Ends f
    → ((x : A) → Ends (g x))
    → Ends (λ fuel. f fuel >>= λ x. g x fuel)
Ends->>= {B = B} f g (m, x, ends) after =
    let (n, y, ends') = after x in
    (
      m + n,
      y,
      λ fuel h.
          ap (λ (o : Option _). o >>= λ z. g z fuel) (ends fuel (omega arith))
          ∙ ends' fuel (omega arith),
    )

-- A loop that is done in its first round, or goes on with less fuel.
Ends-suc :
    {A : Type 0} (f g : ℕ → Option A) → ((fuel : ℕ) → f (suc fuel) ≡ g fuel) → Ends g → Ends f
Ends-suc {A} f g step (n, x, ends) = (suc n, x, from)
  where
    from : (fuel : ℕ) → suc n ≤ fuel → f fuel ≡ some x
    from zero h = absurd (omega arith)
    from (suc fuel) h = step fuel ∙ ends fuel (omega arith)

Ends-if :
    {A : Type 0} (b : Bool) (f g : ℕ → Option A)
    → (b ≡ true → Ends f)
    → (b ≡ false → Ends g)
    → Ends (λ fuel. if b then f fuel else g fuel)
Ends-if true f g x y = x refl
Ends-if false f g x y = y refl

-- What comes after reads that end.
Ends-returned :
    {A : Type 0} (b : Bool) (g : ℕ → Option A)
    → b ≡ true
    → Ends g
    → Ends (λ fuel. if not b then none else g fuel)
Ends-returned true g e ends = ends
Ends-returned false g e ends = absurd (cc e)

module _ (h : Host) (advances : Advances h) (pauses : Pauses h) (limit : ℕ) where
  clock-le-add : (m k : ℕ) → h.clock m ≤ h.clock (m + k)
  clock-le-add m zero = subst (λ n. h.clock m ≤ h.clock n) (omega arith) (le_refl (h.clock m))
  clock-le-add m (suc k) =
      let step : h.clock m ≤ h.clock (suc (m + k)) =
        omega (arith, clock-le-add m k, advances.monotone (m + k)) in
      subst (λ n. h.clock m ≤ h.clock n) (omega arith) step

  clock-le : (m n : ℕ) → m ≤ n → h.clock m ≤ h.clock n
  clock-le m n le = subst (λ k. h.clock m ≤ h.clock k) (omega arith) (clock-le-add m (n - m))

  watch_round :
      (deadline : ℕ) (p : Parent)
      → (h.clock p.clocks < deadline
          → Ends (λ fuel. watch fuel h limit deadline (tick (read_ready h limit p))))
      → Ends (λ fuel. watch fuel h limit deadline p)
  unfolding watch
  watch_round deadline p go =
      Ends-suc _ _ (λ fuel. refl)
        (Ends-returned (read_ready h limit p).returned _ (read_ready-returned h limit p pauses) (
          Ends-if (h.gone p.rounds) _ _ (λ _. Ends-some (false, read_ready h limit p))
            (λ _.
              Ends-if (leb deadline (h.clock p.clocks)) _ _
                (λ _. Ends-some (true, tick (read_ready h limit p)))
                (λ early. go (ground (arith, early))))))

  -- `k` readings of the clock are left at most.
  watch-Ends :
      (deadline m : ℕ)
      → deadline ≤ h.clock m
      → (k : ℕ) (p : Parent) → m ≤ p.clocks + k
      → Ends (λ fuel. watch fuel h limit deadline p)
  unfolding read_ready
  watch-Ends deadline m late zero p le =
      watch_round deadline p
        (λ early. absurd (omega (arith, early, late, clock-le m p.clocks (omega arith))))
  watch-Ends deadline m late (suc k) p le =
      watch_round deadline p
        (λ _. watch-Ends deadline m late k (tick (read_ready h limit p)) (omega arith))

  grace_round :
      (grace : ℕ) (p : Parent)
      → (h.clock p.clocks < grace
          → Ends (λ fuel. wait_grace fuel h limit grace (read_ready h limit (tick p))))
      → Ends (λ fuel. wait_grace fuel h limit grace p)
  unfolding wait_grace
  grace_round grace p go =
      Ends-suc _ _ (λ fuel. refl)
        (Ends-if (ltb (h.clock p.clocks) grace) _ _
          (λ early.
            Ends-returned (read_ready h limit (tick p)).returned _
              (read_ready-returned h limit (tick p) pauses)
              (Ends-if (h.gone p.rounds) _ _ (λ _. Ends-some (read_ready h limit (tick p)))
                (λ _. go (ground (arith, early)))))
          (λ _. Ends-some (tick p)))

  wait_grace-Ends :
      (grace m : ℕ)
      → grace ≤ h.clock m
      → (k : ℕ) (p : Parent) → m ≤ p.clocks + k
      → Ends (λ fuel. wait_grace fuel h limit grace p)
  unfolding read_ready
  wait_grace-Ends grace m late zero p le =
      grace_round grace p
        (λ early. absurd (omega (arith, early, late, clock-le m p.clocks (omega arith))))
  wait_grace-Ends grace m late (suc k) p le =
      grace_round grace p
        (λ _. wait_grace-Ends grace m late k (read_ready h limit (tick p)) (omega arith))

  terminate-Ends : (late : Bool) (p : Parent) → Ends (λ fuel. terminate fuel h limit late p)
  unfolding terminate
  terminate-Ends false p = Ends-some p
  terminate-Ends true p =
      let (m, passed) = advances.passes (h.clock p.clocks + 1000 * ms) in
      wait_grace-Ends (h.clock p.clocks + 1000 * ms) m passed m (tick p) (omega arith)

supervise-Ends :
    (h : Host) (spec : RunSpec) → Advances h → Pauses h → Ends (λ fuel. supervise fuel h spec)
unfolding supervise
supervise-Ends h spec advances pauses =
    let limit = spec.max_output_bytes in
    let deadline = h.clock 0 + spec.timeout * ms in
    let (m, passed) = advances.passes deadline in
    Ends->>= _ _ (watch-Ends h advances pauses limit deadline m passed m launched (omega arith))
      (λ w. Ends->>= _ _ (terminate-Ends h advances pauses limit w.0 w.1) (λ p.
        Ends-if (last_returns h spec p) _ _ (λ _. Ends-some _)
          (λ bad. let good = last_returns_lem h spec p pauses in absurd (cc (good, bad)))))

after_exec-Ends :
    (x : Option ℕ) (h : Host) (spec : RunSpec)
    → Advances h
    → Pauses h
    → Ends (λ fuel. after_exec x fuel h spec)
unfolding after_exec
after_exec-Ends none h spec advances pauses = supervise-Ends h spec advances pauses
after_exec-Ends (some e) h spec advances pauses = Ends-some _

fork_child-Ends :
    (x : Option ℕ) (h : Host) (spec : RunSpec)
    → Advances h
    → Pauses h
    → Ends (λ fuel. fork_child x fuel h spec)
unfolding fork_child run_child
fork_child-Ends none h spec advances pauses =
    Ends->>= (λ fuel. exec_error h.exec_reads) _ (0, pauses.answer, λ fuel _. pauses.answered)
      (λ x. after_exec-Ends x h spec advances pauses)
fork_child-Ends (some e) h spec advances pauses = Ends-some _

or_fail-Ends :
    (x : Option ℕ) (h : Host) (made : List Call) (next : ℕ → Option Outcome)
    → Ends next
    → Ends (λ fuel. or_fail x h made (next fuel))
or_fail-Ends none h made next ends = ends
or_fail-Ends (some e) h made next ends = Ends-some _

make_pipes-Ends :
    (h : Host) (pipes : List Pipe) (made : List Call) (next : ℕ → Option Outcome)
    → Ends next
    → Ends (λ fuel. make_pipes h pipes made (next fuel))
unfolding make_pipes
make_pipes-Ends h [] made next ends = Ends->>= _ _ ends (λ o. Ends-some _)
make_pipes-Ends h (p ∷ pipes) made next ends =
    or_fail-Ends (h.pipe_errno p) h made _
      (make_pipes-Ends h pipes (made ++ (piped p ∷ [])) next ends)

run_process-Ends :
    (h : Host) (spec : RunSpec) → Advances h → Pauses h → Ends (λ fuel. run_process fuel h spec)
unfolding run_process
run_process-Ends h spec advances pauses =
    Ends-if (is_empty (program spec.argv)) _ _ (λ _. Ends-some _)
      (λ _.
        make_pipes-Ends h (out_pipe ∷ err_pipe ∷ exec_pipe ∷ []) [] _
          (fork_child-Ends h.fork_errno h spec advances pauses))

-- The fuel that is enough.
pub enough : (h : Host) (spec : RunSpec) → Advances h → Pauses h → ℕ
enough h spec advances pauses = (run_process-Ends h spec advances pauses).0

-- On a clock that does not go back and passes every time, a run of a command that in every round of reads
-- pauses or ends its output at some point, and whose `exec` is answered, comes to an end, whether or not
-- the command ever exits by itself: with enough fuel, or more, there is a result.
pub run_process-returns :
    (h : Host) (spec : RunSpec) (advances : Advances h) (pauses : Pauses h) (fuel : ℕ)
    → enough h spec advances pauses ≤ fuel
    → (o : Outcome) × (run_process fuel h spec ≡ some o)
unfolding enough
run_process-returns h spec advances pauses fuel le =
    let (_, o, ends) = run_process-Ends h spec advances pauses in (o, ends fuel le)
