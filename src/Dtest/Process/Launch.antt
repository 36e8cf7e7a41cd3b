-- ===== src/Dtest/Process/Launch.antt =====
-- dtest/src/process.cpp, `run_process`: from the pipes to the output, and the environment.
use computing_test_plat.Base.{
  ℕ, ◌+◌, ◌*◌, List, [], ◌∷◌, ◌++◌, Option, none, some, Bool, true, false, if◌then◌else◌, Text,
  codes, is_empty, map, ◌>>=◌, ◌&&◌,
}
use computing_test_plat.Dtest.Jobs.Values.{merge_env}
use computing_test_plat.Dtest.Process.{
  RunSpec, RunOutput, ExecRead, whole, short, failed, Pipe, out_pipe, err_pipe, exec_pipe, Call,
  piped, forked, closed_read, closed_write, sigterm, sigkill, reaped, Host, drain_open, Parent,
  watch, ms, terminate, no_output, judge, finish,
}

abbrev pub closed_outputs : List Call
closed_outputs = closed_read out_pipe ∷ closed_read err_pipe ∷ []

-- The child is reaped, what is left in the pipes is read, and the pipes are closed.
unfoldable pub collect : Host → RunSpec → Bool → Parent → RunOutput
unfolding drain_open judge finish
collect h spec late p =
    let limit = spec.max_output_bytes in
    let o = drain_open p.out_open limit h.last_out p.out p.truncated in
    let e = drain_open p.err_open limit h.last_err p.err o.truncated in
    finish h p.clocks (
      judge late spec.timeout h.status
        (record no_output { out = o.into; err = e.into; truncated = e.truncated }))

-- Whether the last reads come to an end.
unfoldable pub last_returns : Host → RunSpec → Parent → Bool
unfolding drain_open
last_returns h spec p =
    let limit = spec.max_output_bytes in
    let o = drain_open p.out_open limit h.last_out p.out p.truncated in
    let e = drain_open p.err_open limit h.last_err p.err o.truncated in o.returns && e.returns

-- The error number that the child sent when its `exec` failed, once the read is done: none for a list
-- without an answer, which stands for a read that blocks for ever.
unfoldable pub exec_error : List ExecRead → Option (Option ℕ)
exec_error [] = none
exec_error (ExecRead.interrupted ∷ reads) = exec_error reads
exec_error (whole e ∷ reads) = some (some e)
exec_error (short ∷ reads) = some none
exec_error (failed ∷ reads) = some none

abbrev pub program : List Text → Text
program [] = []
program (a ∷ args) = a

abbrev pub launched : Parent
launched = record {
  out = [];
  err = [];
  truncated = false;
  out_open = true;
  err_open = true;
  rounds = 0;
  clocks = 1;
  returned = true;
}

abbrev pub Outcome : Type 0
Outcome = RunOutput × List Call

abbrev pub after_fork : List Call
after_fork =
    forked
    ∷ closed_write out_pipe
    ∷ closed_write err_pipe
    ∷ closed_write exec_pipe
    ∷ closed_read exec_pipe
    ∷ []

-- The parent of a child that runs its program.
unfoldable pub supervise : ℕ → Host → RunSpec → Option Outcome
unfolding watch terminate collect last_returns
supervise fuel h spec =
    watch fuel h spec.max_output_bytes (h.clock 0 + spec.timeout * ms) launched >>= λ w.
    terminate fuel h spec.max_output_bytes w.0 w.1 >>= λ p.
    if last_returns h spec p
    then some (
      collect h spec w.0 p,
      after_fork ++ ((if w.0 then sigterm ∷ [] else []) ++ (sigkill ∷ reaped ∷ closed_outputs)),
    )
    else none

-- The child did not get to its program, or it is watched.
unfoldable pub after_exec : Option ℕ → ℕ → Host → RunSpec → Option Outcome
unfolding supervise
after_exec none fuel h spec = supervise fuel h spec
after_exec (some e) fuel h spec = some (
  finish h 1 (record no_output {
    message = codes "cannot execute '" ++ (program spec.argv ++ (codes "': " ++ h.strerror e));
  }),
  after_fork ++ (reaped ∷ closed_outputs),
)

unfoldable pub run_child : ℕ → Host → RunSpec → Option Outcome
unfolding after_exec exec_error
run_child fuel h spec = exec_error h.exec_reads >>= λ x. after_exec x fuel h spec

abbrev pub failure : Host → Text → ℕ → List Call → Outcome
failure h what e calls = (finish h 1 (record no_output { message = what ++ h.strerror e }), calls)

abbrev pub close_all : List Call
close_all =
    closed_read out_pipe
    ∷ closed_write out_pipe
    ∷ closed_read err_pipe
    ∷ closed_write err_pipe
    ∷ closed_read exec_pipe
    ∷ closed_write exec_pipe
    ∷ []

unfoldable pub fork_child : Option ℕ → ℕ → Host → RunSpec → Option Outcome
unfolding run_child
fork_child none fuel h spec = run_child fuel h spec
fork_child (some e) fuel h spec = some (failure h (codes "fork failed: ") e close_all)

-- Calls in front of the others.
abbrev pub behind : List Call → Outcome → Outcome
behind calls (r, later) = (r, calls ++ later)

-- `pipe(...) != 0`, with the pipes made before, or what comes next.
abbrev pub or_fail : Option ℕ → Host → List Call → Option Outcome → Option Outcome
or_fail none h made next = next
or_fail (some e) h made next = some (failure h (codes "pipe failed: ") e made)

-- The pipes are made in turn, up to the first that cannot be made.
unfoldable pub make_pipes : Host → List Pipe → List Call → Option Outcome → Option Outcome
make_pipes h [] made next = next >>= λ o. some (behind made o)
make_pipes h (p ∷ pipes) made next =
    let rest = make_pipes h pipes (made ++ (piped p ∷ [])) next in
    or_fail (h.pipe_errno p) h made rest

unfoldable pub run_process : ℕ → Host → RunSpec → Option Outcome
unfolding fork_child make_pipes
run_process fuel h spec =
    let next = fork_child h.fork_errno fuel h spec in
    if is_empty (program spec.argv)
    then some (finish h 1 (record no_output { message = codes "empty argv" }), [])
    else make_pipes h (out_pipe ∷ err_pipe ∷ exec_pipe ∷ []) [] next

-- The minimal clean environment with the members of the specification over it.
unfoldable pub environment : RunSpec → List (Text × Text)
unfolding merge_env
environment spec =
    merge_env
      ((codes "LC_ALL", codes "C") ∷ (codes "PATH", codes "/usr/local/bin:/usr/bin:/bin") ∷ [])
      spec.env

abbrev pub setting : Text × Text → Text
setting (k, v) = k ++ (codes "=" ++ v)

-- `envp`.
unfoldable pub env_strings : RunSpec → List Text
unfolding environment
env_strings spec = map setting (environment spec)
