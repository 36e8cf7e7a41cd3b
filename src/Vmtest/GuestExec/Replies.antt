-- ===== src/Vmtest/GuestExec/Replies.antt =====
-- vmtest/src/guest_exec.cpp, `parse_exec_status`, against the replies that the guest agent writes.
use computing_test_plat.Base.{
  ℕ, ◌+◌, ◌^◌, ◌<◌, ◌≡◌, ap, some, true, text_eq, Text, codes, All, arith, ◌∙◌, Option, none, [],
}
use computing_test_plat.Base.Int.{ℤ, pos, ◌+ℤ◌}
use computing_test_plat.Dtest.Json.{
  Json, boolean, unsigned, string, object, Members, no_member, member, find,
}
use computing_test_plat.Vmtest.Util.Laws.{base64_encode, base64_decode-base64_encode}
use computing_test_plat.Vmtest.Machine.{Env, ExecResult}
use computing_test_plat.Vmtest.GuestExec.{parsed, parse_exec_status, signed}

-- How a command ended, and the exit code that is made of it.
pub data End : Type 0 where
  with_code by_signal : ℕ → End

abbrev pub code_of : End → ℕ
code_of (with_code n) = n
code_of (by_signal n) = 128 + n

-- What was written, in base64; nothing written has no member.
abbrev data_member : Text → Option Text → Members → Members
data_member key none ms = ms
data_member key (some s) ms = member key (string (base64_encode s)) ms

abbrev code_member : End → Members → Members
code_member (with_code n) ms = member (codes "exitcode") (unsigned n) ms
code_member (by_signal n) ms = ms

abbrev signal_member : End → Members
signal_member (with_code n) = no_member
signal_member (by_signal n) = member (codes "signal") (unsigned n) no_member

-- The reply for a command that has ended, as the parser gives it: the members are in the order of their
-- keys.
pub status_reply : End → Option Text → Option Text → Json
status_reply e out err = object (
    member (codes "return")
      (object (
        data_member (codes "err-data") err (
          code_member e (
            member (codes "exited") (boolean true)
              (data_member (codes "out-data") out (signal_member e))))))
      no_member)

abbrev pub written : Option Text → Text
written none = []
written (some s) = s

abbrev Bytes : Option Text → Type 0
Bytes out = All (λ c. c < 256) (written out)

int_small : (n : ℕ) → n < 2 ^ 31 → signed (2 ^ 31) n ≡ pos n
int_small n h = ground (arith, h)

add_128 : (n : ℕ) → pos 128 +ℤ pos n ≡ pos (128 + n)
unfolding ◌+ℤ◌
add_128 n = ground arith

signal_code : (n : ℕ) → n < 2 ^ 31 → pos 128 +ℤ signed (2 ^ 31) n ≡ pos (128 + n)
signal_code n h = ap (λ c. pos 128 +ℤ c) (int_small n h) ∙ add_128 n

abbrev result_of : ℤ → Text → Text → ExecResult
result_of code out err = record { exited = true; exit_code = code; out = out; err = err }

-- A reply of the guest agent for a command that has ended, with its members in the order of their keys, is
-- read as the code that it exited with, or as 128 and the number of the signal that killed it, with the
-- bytes that it wrote to its standard output and its standard error, none where the reply has no member for
-- them, for a number below 2^31 less 128.
pub parse_exec_status-status_reply :
    (env : Env) (text : Text) (e : End) (out err : Option Text)
    → Bytes out
    → Bytes err
    → code_of e + 128 < 2 ^ 31
    → env.parse text ≡ some (status_reply e out err)
    → parse_exec_status env text
      ≡ parsed (record {
        exited = true;
        exit_code = pos (code_of e);
        out = written out;
        err = written err;
      })
unfolding parse_exec_status status_reply find text_eq
parse_exec_status-status_reply env text (with_code n) none none ho he small p =
    rw (p) (ap (λ c. parsed (result_of c [] [])) (int_small n (omega arith)))
parse_exec_status-status_reply env text (with_code n) none (some err) ho he small p =
    rw (p, base64_decode-base64_encode err he)
      (ap (λ c. parsed (result_of c [] err)) (int_small n (omega arith)))
parse_exec_status-status_reply env text (with_code n) (some out) none ho he small p =
    rw (p, base64_decode-base64_encode out ho)
      (ap (λ c. parsed (result_of c out [])) (int_small n (omega arith)))
parse_exec_status-status_reply env text (with_code n) (some out) (some err) ho he small p =
    rw (p, base64_decode-base64_encode out ho, base64_decode-base64_encode err he)
      (ap (λ c. parsed (result_of c out err)) (int_small n (omega arith)))
parse_exec_status-status_reply env text (by_signal n) none none ho he small p =
    rw (p) (ap (λ c. parsed (result_of c [] [])) (signal_code n (omega arith)))
parse_exec_status-status_reply env text (by_signal n) none (some err) ho he small p =
    rw (p, base64_decode-base64_encode err he)
      (ap (λ c. parsed (result_of c [] err)) (signal_code n (omega arith)))
parse_exec_status-status_reply env text (by_signal n) (some out) none ho he small p =
    rw (p, base64_decode-base64_encode out ho)
      (ap (λ c. parsed (result_of c out [])) (signal_code n (omega arith)))
parse_exec_status-status_reply env text (by_signal n) (some out) (some err) ho he small p =
    rw (p, base64_decode-base64_encode out ho, base64_decode-base64_encode err he)
      (ap (λ c. parsed (result_of c out err)) (signal_code n (omega arith)))
