-- ===== src/Dtest/Process/Cases.antt =====
-- dtest/src/process.cpp, `run_process`: the child never runs its program, or it is watched.
use mathlib.Core.Option.{some-injective}
use computing_test_plat.Base.{
  ℕ, ◌+◌, ◌*◌, ◌≡◌, ◌⊎◌, refl, ap, sym, ◌∙◌, List, [], ◌∷◌, ◌++◌, Option, none, some, Bool, false,
  inl, inr, Text, is_empty, ◌>>=◌, >>=-eq-some, subst, if_both, true, if◌then◌else◌,
}
use computing_test_plat.Dtest.Process.{
  RunSpec, RunOutput, Pipe, out_pipe, err_pipe, exec_pipe, Call, piped, Host, Parent, watch, ms,
  terminate, no_output, finish,
}
use computing_test_plat.Dtest.Process.Launch.{
  Outcome, program, launched, collect, exec_error, supervise, after_exec, run_child, fork_child,
  or_fail, make_pipes, run_process, behind, last_returns,
}

-- The program of the child starts.
pub record Launches (h : Host) (spec : RunSpec) : Type 0 where
  pub named : is_empty (program spec.argv) ≡ false
  pub piped_out : h.pipe_errno out_pipe ≡ none
  pub piped_err : h.pipe_errno err_pipe ≡ none
  pub piped_exec : h.pipe_errno exec_pipe ≡ none
  pub forked : h.fork_errno ≡ none
  pub executed : exec_error h.exec_reads ≡ some none

-- The two loops came to an end, and the output is what the parent then has.
pub record Watches (fuel : ℕ) (h : Host) (spec : RunSpec) (r : RunOutput) : Type 0 where
  pub late : Bool
  pub at_end : Parent
  pub after : Parent
  pub watched :
      watch fuel h spec.max_output_bytes (h.clock 0 + spec.timeout * ms) launched
      ≡ some (late, at_end)
  pub ended : terminate fuel h spec.max_output_bytes late at_end ≡ some after
  pub collected : r ≡ collect h spec late after

-- A result, and no child that ran.
abbrev pub Failed : Host → RunOutput → Type 0
Failed h r = (m : Text) × (r ≡ finish h 1 (record no_output { message = m }))

-- A result is the one under the test.
pub if_some : {A : Type 0} (b : Bool) (x y : A) → (if b then some x else none) ≡ some y → x ≡ y
if_some true x y e = some-injective _ _ e
if_some false x y e = absurd (cc e)

pub supervise-Watches :
    (fuel : ℕ) (h : Host) (spec : RunSpec) (o : Outcome)
    → supervise fuel h spec ≡ some o
    → Watches fuel h spec o.0
unfolding supervise
supervise-Watches fuel h spec o e =
    let ((late, at_end), w, e') = >>=-eq-some (watch fuel h limit deadline launched) _ e in
    let (after, t, e'') = >>=-eq-some (terminate fuel h limit late at_end) _ e' in
    record {
      late = late;
      at_end = at_end;
      after = after;
      watched = w;
      ended = t;
      collected = ap (λ (x : Outcome). x.0) (sym (if_some (last_returns h spec after) _ _ e''));
    }
  where
    limit : ℕ
    limit = spec.max_output_bytes

    deadline : ℕ
    deadline = h.clock 0 + spec.timeout * ms

outcome_of : {o o' : Outcome} → some o' ≡ some o → o.0 ≡ o'.0
outcome_of e = ap (λ (x : Outcome). x.0) (sym (some-injective _ _ e))

after_exec-cases :
    (x : Option ℕ) (fuel : ℕ) (h : Host) (spec : RunSpec) (o : Outcome)
    → after_exec x fuel h spec ≡ some o
    → Failed h o.0 ⊎ (Watches fuel h spec o.0 × (x ≡ none))
unfolding after_exec
after_exec-cases none fuel h spec o e = inr (supervise-Watches fuel h spec o e, refl)
after_exec-cases (some n) fuel h spec o e = inl (_, outcome_of e)

fork_child-cases :
    (x : Option ℕ) (fuel : ℕ) (h : Host) (spec : RunSpec) (o : Outcome)
    → fork_child x fuel h spec ≡ some o
    → Failed h o.0 ⊎ (Watches fuel h spec o.0 × (exec_error h.exec_reads ≡ some none) × (x ≡ none))
unfolding fork_child run_child
fork_child-cases none fuel h spec o e =
    let (x, answered, e') = >>=-eq-some (exec_error h.exec_reads) _ e in
    elim (after_exec-cases x fuel h spec o e') [
      | inl fails ↦ inl fails
      | inr (w, ran) ↦ inr (w, answered ∙ ap some ran, refl)
    ]
fork_child-cases (some n) fuel h spec o e = inl (_, outcome_of e)

abbrev Made : Host → List Pipe → Type 0
Made h [] = Unit
Made h (p ∷ pipes) = (h.pipe_errno p ≡ none) × Made h pipes

or_fail-cases :
    (x : Option ℕ) (h : Host) (made : List Call) (next : Option Outcome) (o : Outcome)
    → or_fail x h made next ≡ some o
    → Failed h o.0 ⊎ ((x ≡ none) × (next ≡ some o))
or_fail-cases none h made next o e = inr (refl, e)
or_fail-cases (some n) h made next o e = inl (_, outcome_of e)

make_pipes-cases :
    (h : Host) (pipes : List Pipe) (made : List Call) (next : Option Outcome) (o : Outcome)
    → make_pipes h pipes made next ≡ some o
    → Failed h o.0 ⊎ ((p : Outcome) × (next ≡ some p) × (o.0 ≡ p.0) × Made h pipes)
unfolding make_pipes
make_pipes-cases h [] made next o e =
    let (p, n, e') = >>=-eq-some next _ e in inr (p, n, outcome_of e', tt)
make_pipes-cases h (p ∷ pipes) made next o e = elim (or_fail-cases (h.pipe_errno p) h made _ o e) [
  | inl fails ↦ inl fails
  | inr (fine, e') ↦ elim (make_pipes-cases h pipes (made ++ (piped p ∷ [])) next o e') [
    | inl fails ↦ inl fails
    | inr (q, n, same, others) ↦ inr (q, n, same, (fine, others))
  ]
]

-- Every result is of one of the two kinds.
pub run_process-cases :
    (fuel : ℕ) (h : Host) (spec : RunSpec) (o : Outcome)
    → run_process fuel h spec ≡ some o
    → Failed h o.0 ⊎ (Watches fuel h spec o.0 × Launches h spec)
unfolding run_process
run_process-cases fuel h spec o =
    if_both
      (λ (x : Option Outcome).
        x ≡ some o → Failed h o.0 ⊎ (Watches fuel h spec o.0 × Launches h spec))
      (is_empty (program spec.argv)) _ _ (λ _ e. inl (_, outcome_of e)) named_cases
  where
    named_cases :
        is_empty (program spec.argv) ≡ false
        → make_pipes h
            (out_pipe ∷ err_pipe ∷ exec_pipe ∷ [])
            []
            (fork_child h.fork_errno fuel h spec)
          ≡ some o
        → Failed h o.0 ⊎ (Watches fuel h spec o.0 × Launches h spec)
    named_cases named e =
        elim (make_pipes-cases h (out_pipe ∷ err_pipe ∷ exec_pipe ∷ []) []
          (fork_child h.fork_errno fuel h spec) o e) [
            | inl fails ↦ inl fails
            | inr (p, n, same, (out, (err, (exec, _)))) ↦
                elim (fork_child-cases h.fork_errno fuel h spec p n) [
                  | inl (m, fails) ↦ inl (m, same ∙ fails)
                  | inr (w, ran, forked) ↦ inr (
                    subst (Watches fuel h spec) (sym same) w,
                    record {
                      named = named;
                      piped_out = out;
                      piped_err = err;
                      piped_exec = exec;
                      forked = forked;
                      executed = ran;
                    },
                  )
                ]
          ]

-- Where the program starts, the result is that of watching it.
pub run_process-Launches :
    (fuel : ℕ) (h : Host) (spec : RunSpec)
    → Launches h spec
    → run_process fuel h spec ≡ (
        supervise fuel h spec >>= λ o.
        some (behind (piped out_pipe ∷ piped err_pipe ∷ piped exec_pipe ∷ []) o))
unfolding run_process make_pipes fork_child run_child after_exec
run_process-Launches fuel h spec l =
    simp (l.named, l.piped_out, l.piped_err, l.piped_exec, l.forked, l.executed)
