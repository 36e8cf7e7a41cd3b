-- ===== src/Dtest/Process.antt =====
-- dtest/src/process.cpp, `run_process`: the parent of a command. What the system calls give is a record
-- of answers; what the parent asks of the system is a list of calls. A loop takes fuel, and gives none
-- where the fuel is spent; it also gives none where reads go on for ever.
pub mod Launch
pub mod Cases
pub mod Capture
pub mod Output
pub mod Calls
pub mod Timing
pub mod Child
pub mod Total
mod Tests
use computing_test_plat.Base.{
  ℕ, zero, suc, ◌+◌, ◌-◌, ◌*◌, ◌/◌, List, [], ◌∷◌, ◌++◌, Option, none, some, Bool, true, false,
  ◌||◌, ltb, leb, if◌then◌else◌, Text, codes, is_empty, length, take, ◌>>=◌, not, ◌&&◌,
}
use computing_test_plat.Base.Int.{ℤ, pos, negsuc}
use computing_test_plat.Base.Ascii.{decimal}

pub record RunSpec : Type 0 where
  pub argv : List Text
  pub env : List (Text × Text)
  pub timeout : ℕ
  pub max_output_bytes : ℕ

pub data RunOutcome : Type 0 where
  exited signaled timed_out launch_failed : RunOutcome

pub record RunOutput : Type 0 where
  pub outcome : RunOutcome
  pub exit_code : ℤ
  pub term_signal : ℤ
  pub out : Text
  pub err : Text
  pub truncated : Bool
  pub duration : ℕ
  pub message : Text

-- What `read` gives: one byte or more, 0, or an error.
pub data ReadResult : Type 0 where
  bytes : Text → ReadResult
  end_of_file interrupted no_data read_failed : ReadResult

-- What `read` gives on the pipe that reports a failed `exec`: the whole error number, less, or an error.
pub data ExecRead : Type 0 where
  whole : ℕ → ExecRead
  short interrupted failed : ExecRead

-- What `waitpid` stores.
pub data WaitStatus : Type 0 where
  with_code : ℕ → WaitStatus
  by_signal : ℕ → WaitStatus
  otherwise : WaitStatus

pub data Pipe : Type 0 where
  out_pipe err_pipe exec_pipe : Pipe

-- Pipes made, the child made, ends closed, signals sent to the group of the child, the child reaped.
pub data Call : Type 0 where
  piped : Pipe → Call
  forked : Call
  closed_read closed_write : Pipe → Call
  sigterm sigkill reaped : Call

-- The answers of the system. The clock counts nanoseconds, and its readings are numbered; so are the
-- rounds of reads, with what `waitid` says after each of them. A pipe or a child that cannot be made
-- has an error number.
pub record Host : Type 0 where
  pub clock : ℕ → ℕ
  pub pipe_errno : Pipe → Option ℕ
  pub fork_errno : Option ℕ
  pub strerror : ℕ → Text
  pub exec_reads : List ExecRead
  pub out_reads : ℕ → List ReadResult
  pub err_reads : ℕ → List ReadResult
  pub gone : ℕ → Bool
  pub last_out : List ReadResult
  pub last_err : List ReadResult
  pub status : WaitStatus

-- The text read so far, whether bytes were discarded, whether the stream may have more, and whether the
-- reads came to an end, without which the function does not return.
pub record Stream : Type 0 where
  pub into : Text
  pub truncated : Bool
  pub more : Bool
  pub returns : Bool

-- The loop ends with the stream, without data or with an error. A list without one of these stands for
-- reads that go on for ever.
unfoldable pub drain : ℕ → List ReadResult → Text → Bool → Stream
drain limit [] into truncated = record {
  into = into;
  truncated = truncated;
  more = true;
  returns = false;
}
drain limit (bytes chunk ∷ reads) into truncated =
    let n = length chunk in
    let room = if ltb (length into) limit then limit - length into else 0 in
    let taken = if ltb room n then room else n in
    drain limit reads (into ++ take taken chunk) (truncated || ltb taken n)
drain limit (end_of_file ∷ reads) into truncated = record {
  into = into;
  truncated = truncated;
  more = false;
  returns = true;
}
drain limit (ReadResult.interrupted ∷ reads) into truncated = drain limit reads into truncated
drain limit (no_data ∷ reads) into truncated = record {
  into = into;
  truncated = truncated;
  more = true;
  returns = true;
}
drain limit (read_failed ∷ reads) into truncated = record {
  into = into;
  truncated = truncated;
  more = false;
  returns = true;
}

-- A closed stream is not read.
unfoldable pub drain_open : Bool → ℕ → List ReadResult → Text → Bool → Stream
unfolding drain
drain_open true limit reads into truncated = drain limit reads into truncated
drain_open false limit reads into truncated = record {
  into = into;
  truncated = truncated;
  more = false;
  returns = true;
}

-- The variables of the loops, with the rounds of reads and the readings of the clock so far, and whether
-- the reads of the last round came to an end.
pub record Parent : Type 0 where
  pub out : Text
  pub err : Text
  pub truncated : Bool
  pub out_open : Bool
  pub err_open : Bool
  pub rounds : ℕ
  pub clocks : ℕ
  pub returned : Bool

unfoldable pub read_ready : Host → ℕ → Parent → Parent
unfolding drain_open
read_ready h limit p =
    let o = drain_open p.out_open limit (h.out_reads p.rounds) p.out p.truncated in
    let e = drain_open p.err_open limit (h.err_reads p.rounds) p.err o.truncated in
    record {
      out = o.into;
      err = e.into;
      truncated = e.truncated;
      out_open = o.more;
      err_open = e.more;
      rounds = p.rounds + 1;
      clocks = p.clocks;
      returned = o.returns && e.returns;
    }

-- `Clock::now()`.
abbrev pub tick : Parent → Parent
tick p = record p { clocks = p.clocks + 1 }

-- The loop up to the exit or the deadline, and whether it was the deadline.
unfoldable pub watch : ℕ → Host → ℕ → ℕ → Parent → Option (Bool × Parent)
unfolding read_ready
watch zero h limit deadline p = none
watch (suc fuel) h limit deadline p =
    let q = read_ready h limit p in
    let rest = watch fuel h limit deadline (tick q) in
    if not q.returned
    then none
    else if h.gone p.rounds
    then some (false, q)
    else if leb deadline (h.clock p.clocks)
    then some (true, tick q)
    else rest

-- The loop after SIGTERM, up to the exit or the end of the grace period.
unfoldable pub wait_grace : ℕ → Host → ℕ → ℕ → Parent → Option Parent
unfolding read_ready
wait_grace zero h limit grace p = none
wait_grace (suc fuel) h limit grace p =
    let q = read_ready h limit (tick p) in
    let rest = wait_grace fuel h limit grace q in
    if ltb (h.clock p.clocks) grace
    then (if not q.returned then none else if h.gone p.rounds then some q else rest)
    else some (tick p)

abbrev pub ms : ℕ
ms = 1000000

-- The child after its time: SIGTERM, and a second of grace.
unfoldable pub terminate : ℕ → Host → ℕ → Bool → Parent → Option Parent
unfolding wait_grace
terminate fuel h limit false p = some p
terminate fuel h limit true p = wait_grace fuel h limit (h.clock p.clocks + 1000 * ms) (tick p)

abbrev pub no_output : RunOutput
no_output = record {
  outcome = launch_failed;
  exit_code = negsuc 0;
  term_signal = pos 0;
  out = [];
  err = [];
  truncated = false;
  duration = 0;
  message = [];
}

-- The output with the status of the child.
unfoldable pub judge : Bool → ℕ → WaitStatus → RunOutput → RunOutput
unfolding decimal
judge true timeout status r = record r {
  outcome = timed_out;
  message = codes "exceeded timeout of " ++ (decimal timeout ++ codes " ms");
}
judge false timeout (with_code n) r = record r { outcome = exited; exit_code = pos n }
judge false timeout (by_signal n) r = record r { outcome = signaled; term_signal = pos n }
judge false timeout otherwise r = r

-- `finish`: the duration in milliseconds, at the reading `n` of the clock.
unfoldable pub finish : Host → ℕ → RunOutput → RunOutput
finish h n r = record r { duration = (h.clock n - h.clock 0) / ms }
