-- ===== src/Dtest/Process/Calls.antt =====
-- dtest/src/process.cpp, `run_process`: the order of the calls, judged by an account of the descriptors
-- and of the child that the parent has.
use mathlib.Core.Option.{some-injective}
use computing_test_plat.Base.{
  ℕ, ◌+◌, ◌*◌, ◌≡◌, refl, ap, subst, List, [], ◌∷◌, ◌++◌, Option, none, some, Bool, true, false,
  if◌then◌else◌, is_empty, ◌>>=◌, >>=-eq-some, codes,
}
use computing_test_plat.Dtest.Process.{
  RunSpec, Pipe, out_pipe, err_pipe, exec_pipe, Call, piped, forked, closed_read, closed_write,
  sigterm, sigkill, reaped, Host, watch, ms, terminate, finish, no_output,
}
use computing_test_plat.Dtest.Process.Launch.{
  Outcome, program, launched, supervise, after_exec, exec_error, run_child, fork_child, or_fail,
  make_pipes, run_process, after_fork, closed_outputs, behind, last_returns,
}
use computing_test_plat.Dtest.Process.Cases.{if_some}

-- Which ends of a pipe are open.
pub record Ends : Type 0 where
  pub read : Bool
  pub write : Bool

abbrev pub both : Ends
both = record { read = true; write = true }

abbrev pub neither : Ends
neither = record { read = false; write = false }

-- The ends of the three pipes, and whether there is a child that is not reaped.
pub record Held : Type 0 where
  pub out : Ends
  pub err : Ends
  pub exec : Ends
  pub child : Bool

abbrev pub nothing_held : Held
nothing_held = record { out = neither; err = neither; exec = neither; child = false }

abbrev pub ends : Pipe → Held → Ends
ends out_pipe k = k.out
ends err_pipe k = k.err
ends exec_pipe k = k.exec

abbrev pub with_ends : Pipe → Ends → Held → Held
with_ends out_pipe x k = record k { out = x }
with_ends err_pipe x k = record k { err = x }
with_ends exec_pipe x k = record k { exec = x }

-- What a call does to what is held: none where an end is closed that is not open, or where a signal goes
-- to, or a wait is for, a child that is not there, whose number another process may have by then.
pub account : Call → Held → Option Held
account (piped p) k = some (with_ends p both k)
account forked k = if k.child then none else some (record k { child = true })
account (closed_read p) k =
    if (ends p k).read then some (with_ends p (record (ends p k) { read = false }) k) else none
account (closed_write p) k =
    if (ends p k).write then some (with_ends p (record (ends p k) { write = false }) k) else none
account sigterm k = if k.child then some k else none
account sigkill k = if k.child then some k else none
account reaped k = if k.child then some (record k { child = false }) else none

pub replay : List Call → Held → Option Held
unfolding account
replay [] k = some k
replay (c ∷ calls) k = account c k >>= replay calls

-- What stays open: the pipes that were made in front of one that cannot be made.
pub left_open : Option ℕ → Option ℕ → Option ℕ → Held
left_open (some _) err exec = nothing_held
left_open none (some _) exec = record nothing_held { out = both }
left_open none none (some _) = record nothing_held { out = both; err = both }
left_open none none none = nothing_held

abbrev all_piped : Held
all_piped = record { out = both; err = both; exec = both; child = false }

-- From the three pipes on, everything is closed and the child is reaped.
abbrev Settles : Option Outcome → Type 0
Settles x = (o : Outcome) → x ≡ some o → replay o.1 all_piped ≡ some nothing_held

calls_of : {o o' : Outcome} → some o' ≡ some o → o'.1 ≡ o.1
calls_of e = ap (λ (x : Outcome). x.1) (some-injective _ _ e)

supervise-Settles : (fuel : ℕ) (h : Host) (spec : RunSpec) → Settles (supervise fuel h spec)
unfolding supervise replay account
supervise-Settles fuel h spec o e =
    let ((late, at_end), _, e') = >>=-eq-some (watch fuel h limit deadline launched) _ e in
    let (after, _, e'') = >>=-eq-some (terminate fuel h limit late at_end) _ e' in
    subst (λ (c : List Call). replay c all_piped ≡ some nothing_held)
      (ap (λ (x : Outcome). x.1) (if_some (last_returns h spec after) _ _ e'')) (either late)
  where
    limit : ℕ
    limit = spec.max_output_bytes

    deadline : ℕ
    deadline = h.clock 0 + spec.timeout * ms

    either :
        (b : Bool)
        → replay
            (after_fork
              ++ ((if b then sigterm ∷ [] else []) ++ (sigkill ∷ reaped ∷ closed_outputs)))
            all_piped
          ≡ some nothing_held
    either true = refl
    either false = refl

after_exec-Settles :
    (x : Option ℕ) (fuel : ℕ) (h : Host) (spec : RunSpec) → Settles (after_exec x fuel h spec)
unfolding after_exec replay account
after_exec-Settles none fuel h spec o e = supervise-Settles fuel h spec o e
after_exec-Settles (some n) fuel h spec o e =
    subst (λ (c : List Call). replay c all_piped ≡ some nothing_held) (calls_of e) refl

fork_child-Settles :
    (x : Option ℕ) (fuel : ℕ) (h : Host) (spec : RunSpec) → Settles (fork_child x fuel h spec)
unfolding fork_child run_child replay account
fork_child-Settles none fuel h spec o e =
    let (x, _, e') = >>=-eq-some (exec_error h.exec_reads) _ e in
    after_exec-Settles x fuel h spec o e'
fork_child-Settles (some n) fuel h spec o e =
    subst (λ (c : List Call). replay c all_piped ≡ some nothing_held) (calls_of e) refl

-- Three pipes, each made or not.
make_pipes-replay :
    (x y z : Option ℕ) (h : Host) (next : Option Outcome) (o : Outcome)
    → Settles next
    → or_fail x h [] (
        or_fail y h (piped out_pipe ∷ []) (
          or_fail z h (piped out_pipe ∷ piped err_pipe ∷ []) (
            next >>= λ p.
            some (behind (piped out_pipe ∷ piped err_pipe ∷ piped exec_pipe ∷ []) p))))
      ≡ some o
    → replay o.1 nothing_held ≡ some (left_open x y z)
unfolding replay account left_open
make_pipes-replay (some n) y z h next o s e =
    subst (λ (c : List Call). replay c nothing_held ≡ some nothing_held) (calls_of e) refl
make_pipes-replay none (some n) z h next o s e =
    subst (λ (c : List Call). replay c nothing_held ≡ some (left_open none (some n) z)) (calls_of e)
      refl
make_pipes-replay none none (some n) h next o s e =
    subst (λ (c : List Call). replay c nothing_held ≡ some (left_open none none (some n)))
      (calls_of e) refl
make_pipes-replay none none none h next o s e =
    let (p, n, e') = >>=-eq-some next _ e in
    subst (λ (c : List Call). replay c nothing_held ≡ some nothing_held) (calls_of e') (s p n)

-- In every run that ends, each descriptor is closed at most once and only while it is open, no signal
-- and no wait goes to a child that is not there or is reaped already, the child is reaped where one was
-- made, and in the end every end of every pipe is closed, but for the pipes made in front of a pipe
-- that cannot be made: these stay open.
pub run_process-replay :
    (fuel : ℕ) (h : Host) (spec : RunSpec) (o : Outcome)
    → run_process fuel h spec ≡ some o
    → replay o.1 nothing_held
      ≡ some (
          if is_empty (program spec.argv)
          then nothing_held
          else left_open (h.pipe_errno out_pipe) (h.pipe_errno err_pipe) (h.pipe_errno exec_pipe))
unfolding run_process make_pipes replay
run_process-replay fuel h spec o e = by_name (is_empty (program spec.argv)) e
  where
    by_name :
        (b : Bool)
        → (if b
            then some (finish h 1 (record no_output { message = codes "empty argv" }), [])
            else make_pipes h
                (out_pipe ∷ err_pipe ∷ exec_pipe ∷ [])
                []
                (fork_child h.fork_errno fuel h spec))
          ≡ some o
        → replay o.1 nothing_held
          ≡ some (
              if b
              then nothing_held
              else left_open
                  (h.pipe_errno out_pipe)
                  (h.pipe_errno err_pipe)
                  (h.pipe_errno exec_pipe))
    by_name true d =
        subst (λ (c : List Call). replay c nothing_held ≡ some nothing_held) (calls_of d) refl
    by_name false d =
        make_pipes-replay (h.pipe_errno out_pipe) (h.pipe_errno err_pipe) (h.pipe_errno exec_pipe) h
          (fork_child h.fork_errno fuel h spec) o (fork_child-Settles h.fork_errno fuel h spec) d
