-- ===== src/Vmtest/Machine.antt =====
-- vmtest: what the harness works on. libvirt, the guest agent, `qemu-img`, the file system and the clock
-- are a record of answers, each given for all the calls so far, the last one first. Code that may throw
-- is a function on the state of the `Context` of vmtest/include/vmtest/tests.hpp with these calls.
pub mod Safe
pub mod Waiting
use computing_test_plat.Base.{
  ℕ, zero, suc, ◌+◌, ◌*◌, List, [], ◌∷◌, Option, none, some, Bool, true, false, if◌then◌else◌, leb,
  Text,
}
use computing_test_plat.Base.Int.{ℤ, pos, negsuc}
use computing_test_plat.Dtest.Json.{Json}
use computing_test_plat.Dtest.Process.{WaitStatus, with_code, by_signal, otherwise}

pub data Exception : Type 0 where
  skip_test : Text → Exception
  failure : Text → Exception

-- A loop that has spent its fuel gives no value and no exception.
pub data Result (A : Type 0) : Type 0 where
  value : A → Result A
  thrown : Exception → Result A
  spent : Result A

-- `Domain`: the handle, none where it is null.
pub record Domain : Type 0 where
  pub dom : Option ℕ
  pub name : Text

pub data Call : Type 0 where
  opened : Text → Call
  created : Text → Call
  asked_state : ℕ → Call
  suspended resumed shut_down destroyed asked_info : Option ℕ → Call
  asked_agent : Option ℕ → Text → ℕ → Call
  freed : ℕ → Call
  ran : List Text → ℤ → Bool → Call
  removed : Text → Call
  read_clock : Call
  slept : ℕ → Call

abbrev pub History : Type 0
History = List Call

-- What `virDomainGetState` gives: a number, or an error, with whether it says that there is no domain.
pub data StateAnswer : Type 0 where
  state_number : ℕ → StateAnswer
  state_error : Bool → StateAnswer

-- The clock counts milliseconds. A command that is run may leave the file behind that its last argument names,
-- however it ends.
pub record Env : Type 0 where
  pub fuel : ℕ
  pub pid : ℕ
  pub absolute : Text → Text
  pub opens : History → Bool
  pub creates : History → Option ℕ
  pub state : History → StateAnswer
  pub done : History → Bool
  pub info : History → Option (ℕ × ℕ)
  pub reply : History → Option Text
  pub forks : History → Bool
  pub status : History → Option WaitStatus
  pub leaves : History → Bool
  pub clock : History → ℕ
  pub error : History → Text
  pub parse : Text → Option Json
  pub dump : Json → Text
  pub type_error : Text
  pub float_value : ℤ

pub record ExecResult : Type 0 where
  pub exited : Bool
  pub exit_code : ℤ
  pub out : Text
  pub err : Text

abbrev pub no_result : ExecResult
no_result = record { exited = false; exit_code = negsuc 0; out = []; err = [] }

-- The members of the `Context`, the calls, the variable that the predicate in `guest_exec` writes, and
-- the variable of the soak test that `boot_fresh_vm` writes.
pub record World : Type 0 where
  pub connected : Bool
  pub vm : Option Domain
  pub overlay : Text
  pub next_id : ℕ
  pub calls : History
  pub last : ExecResult
  pub fresh : Text

abbrev pub M : Type 0 → Type 0
M A = World → Result A × World

abbrev pub continue : {A B : Type 0} → Result A × World → (A → M B) → Result B × World
continue (value a, w) f = f a w
continue (thrown e, w) f = (thrown e, w)
continue (spent, w) f = (spent, w)

infixl 5 ◌>>=◌ ◌>>◌
abbrev pub ◌>>=◌ : {A B : Type 0} → M A → (A → M B) → M B
◌>>=◌ m f w = continue (m w) f

abbrev pub ◌>>◌ : {B : Type 0} → M (Unit {0}) → M B → M B
m >> k = m >>= λ _. k

abbrev pub pure : {A : Type 0} → A → M A
pure a w = (value a, w)

abbrev pub throw : {A : Type 0} → Exception → M A
throw e w = (thrown e, w)

-- `try { m } catch (...) { handler }`.
abbrev pub handled : {A : Type 0} → Result A × World → (Exception → M A) → Result A × World
handled (value a, w) handler = (value a, w)
handled (thrown e, w) handler = handler e w
handled (spent, w) handler = (spent, w)

abbrev pub catch : {A : Type 0} → M A → (Exception → M A) → M A
catch m handler w = handled (m w) handler

-- What is destroyed, or done in a `catch (...)` that throws again, when an exception leaves.
abbrev pub on_throw : {A : Type 0} → M A → M (Unit {0}) → M A
on_throw m cleanup = catch m λ e. cleanup >> throw e

abbrev pub modify : (World → World) → M (Unit {0})
modify f w = (value tt, f w)

abbrev pub gets : {A : Type 0} → (World → A) → M A
gets f w = (value (f w), w)

abbrev pub logged : Call → World → World
logged c w = record w { calls = c ∷ w.calls }

-- A call, and the answer to it.
abbrev pub ask : {A : Type 0} → Call → (History → A) → M A
ask c answer w = (value (answer (c ∷ w.calls)), logged c w)

abbrev pub tell : Call → M (Unit {0})
tell c w = (value tt, logged c w)

-- vmtest/include/vmtest/tests.hpp, `require`.
abbrev pub require : Bool → Text → M (Unit {0})
require cond msg = if cond then pure tt else throw (failure msg)

-- vmtest/src/util.cpp, `wait_until`: the loop, for a deadline.
unfoldable pub wait_loop : (History → ℕ) → ℕ → ℕ → ℕ → M Bool → M Bool
wait_loop clock zero deadline interval pred = λ w. (spent, w)
wait_loop clock (suc fuel) deadline interval pred = pred >>= λ met.
    if met
    then pure true
    else (ask read_clock clock >>= λ now.
        if leb deadline now
        then pure false
        else (tell (slept interval) >>= λ _. wait_loop clock fuel deadline interval pred))

unfoldable pub wait_until : Env → ℕ → ℕ → M Bool → M Bool
unfolding wait_loop
wait_until env timeout interval pred =
    ask read_clock env.clock >>= λ now. wait_loop env.clock env.fuel (now + timeout) interval pred

-- vmtest/src/util.cpp, `run_cmd`: whether the child was made, and what `waitpid` stored, none where it
-- failed. A child whose program cannot be executed exits with code 127.
unfoldable pub command_result : List Text → Bool → Option WaitStatus → ℤ
command_result [] forks status = negsuc 0
command_result (program ∷ args) false status = negsuc 0
command_result (program ∷ args) true none = negsuc 0
command_result (program ∷ args) true (some (with_code n)) = pos n
command_result (program ∷ args) true (some (by_signal n)) = negsuc 0
command_result (program ∷ args) true (some otherwise) = negsuc 0

unfoldable pub run_cmd : Env → List Text → M ℤ
unfolding command_result
run_cmd env argv w =
    let rc = command_result argv (env.forks w.calls) (env.status w.calls) in
    (value rc, logged (ran argv rc (env.leaves w.calls)) w)
