-- ===== src/Dtest/Process/Tests.antt =====
-- dtest/src/process.cpp at small inputs.
use native.Mathlib.Nat.{le_refl}
use computing_test_plat.Base.{
  ℕ, ◌*◌, ◌≡◌, ◌↔◌, ◌⊎◌, refl, [], ◌∷◌, none, some, true, false, ◌==◌, if◌then◌else◌, codes,
  is_empty, arith, ◌++◌, ◌<◌, if_both,
}
use computing_test_plat.Base.Int.{pos}
use computing_test_plat.Dtest.Process.{
  RunSpec, exited, timed_out, launch_failed, bytes, end_of_file, short, with_code, Pipe, out_pipe,
  err_pipe, exec_pipe, piped, sigkill, reaped, Host, watch, no_data,
}
use computing_test_plat.Dtest.Process.Launch.{
  Outcome, run_process, supervise, collect, after_fork, closed_outputs, program, exec_error,
}
use computing_test_plat.Dtest.Process.Cases.{Launches}
use computing_test_plat.Dtest.Process.Capture.{Captured}
use computing_test_plat.Dtest.Process.Output.{out_after, err_after, run_process-Captured}
use computing_test_plat.Dtest.Process.Calls.{replay, nothing_held, left_open, run_process-replay}
use computing_test_plat.Dtest.Process.Timing.{IsLate, run_process-timed_out_iff}
use computing_test_plat.Dtest.Process.Total.{Advances, enough, run_process-returns, Stops, Pauses}
use computing_test_plat.Dtest.Process.Child.{
  Table, Numbers, Forked, plain, null_device, read_end, write_end, exec_table, child_setup,
  program_streams,
}

-- A command that writes five bytes in the first round and is gone in the second; the clock goes on by
-- two seconds.
abbrev host : Host
host = record {
  clock = λ n. n * 2000000000;
  pipe_errno = λ _. none;
  fork_errno = none;
  strerror = λ _. [];
  exec_reads = short ∷ [];
  out_reads = λ n. if n == 0 then bytes (codes "hello") ∷ end_of_file ∷ [] else no_data ∷ [];
  err_reads = λ n. no_data ∷ [];
  gone = λ n. n == 1;
  last_out = no_data ∷ [];
  last_err = no_data ∷ [];
  status = with_code 0;
}

abbrev spec : RunSpec
spec = record { argv = codes "/bin/echo" ∷ []; env = []; timeout = 60000; max_output_bytes = 4 }

abbrev outcome : Outcome
outcome = (
  record {
    outcome = exited;
    exit_code = pos 0;
    term_signal = pos 0;
    out = codes "hell";
    err = [];
    truncated = true;
    duration = 4000;
    message = [];
  },
  piped out_pipe
      ∷ piped err_pipe
      ∷ piped exec_pipe
      ∷ (after_fork ++ (sigkill ∷ reaped ∷ closed_outputs)),
)

ran : run_process 3 host spec ≡ some outcome
unfolding run_process supervise watch collect
ran = refl

run_process-Captured_example :
    ((outcome.0.outcome ≡ launch_failed)
      × (outcome.0.out ≡ [])
      × (outcome.0.err ≡ [])
      × (outcome.0.truncated ≡ false))
    ⊎ ((n : ℕ) × Captured 4
          (out_after host n)
          (err_after host n)
          outcome.0.out
          outcome.0.err
          outcome.0.truncated)
run_process-Captured_example = run_process-Captured 3 host spec outcome ran

run_process-replay_example :
    replay outcome.1 nothing_held
    ≡ some (if is_empty (program spec.argv) then nothing_held else left_open none none none)
run_process-replay_example = run_process-replay 3 host spec outcome ran

run_process-timed_out_iff_example :
    (outcome.0.outcome ≡ timed_out) ↔ (Launches host spec × IsLate host spec)
run_process-timed_out_iff_example = run_process-timed_out_iff 3 host spec outcome ran

advances : Advances host
advances = record { monotone = λ n. omega arith; passes = λ t. (t, omega arith) }

out_reads-Stops : (n : ℕ) → Stops (host.out_reads n)
unfolding Stops
out_reads-Stops n = if_both Stops (n == 0) _ _ (λ _. tt) (λ _. tt)

pauses : Pauses host
unfolding Stops exec_error
pauses = record {
  out = out_reads-Stops;
  err = λ n. tt;
  last_out = tt;
  last_err = tt;
  answer = none;
  answered = refl;
}

run_process-returns_example :
    (o : Outcome) × (run_process (enough host spec advances pauses) host spec ≡ some o)
run_process-returns_example =
    run_process-returns host spec advances pauses (enough host spec advances pauses)
      (le_refl (enough host spec advances pauses))

abbrev read_number : Pipe → ℕ
read_number out_pipe = 3
read_number err_pipe = 5
read_number exec_pipe = 7

abbrev write_number : Pipe → ℕ
write_number out_pipe = 4
write_number err_pipe = 6
write_number exec_pipe = 8

abbrev numbers : Numbers
numbers = record { read = read_number; write = write_number }

abbrev table : Table
table n =
    if n == 3
    then plain (read_end out_pipe)
    else if n == 4
    then plain (write_end out_pipe)
    else if n == 5
    then plain (read_end err_pipe)
    else if n == 6
    then plain (write_end err_pipe)
    else if n == 7
    then plain (read_end exec_pipe)
    else if n == 8
    then some (record { file = write_end exec_pipe; close_on_exec = true })
    else none

reads : (q : Pipe) → table (read_number q) ≡ plain (read_end q)
reads out_pipe = refl
reads err_pipe = refl
reads exec_pipe = refl

read_high : (q : Pipe) → 2 < read_number q
read_high out_pipe = omega arith
read_high err_pipe = omega arith
read_high exec_pipe = omega arith

write_high : (q : Pipe) → 2 < write_number q
write_high out_pipe = omega arith
write_high err_pipe = omega arith
write_high exec_pipe = omega arith

forked : Forked numbers table
forked = record {
  reads = reads;
  out = refl;
  err = refl;
  exec = refl;
  read_high = read_high;
  write_high = write_high;
}

program_streams_example :
    (exec_table (child_setup numbers (some 9) table) 0 ≡ plain null_device)
    × (exec_table (child_setup numbers (some 9) table) 1 ≡ plain (write_end out_pipe))
    × (exec_table (child_setup numbers (some 9) table) 2 ≡ plain (write_end err_pipe))
program_streams_example = program_streams numbers 9 table forked refl
