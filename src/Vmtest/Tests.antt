-- ===== src/Vmtest/Tests.antt =====
-- vmtest/ at small inputs.
use computing_test_plat.Base.{
  ◌+◌, refl, Option, none, some, true, ℕ, suc, ◌≡◌, List, [], ◌∷◌, Text, codes, arith,
}
use computing_test_plat.Base.Int.{pos}
use computing_test_plat.Dtest.Json.{Json}
use computing_test_plat.Dtest.Process.{with_code}
use computing_test_plat.Vmtest.Machine.{Call, slept, History, Env, state_number}
use computing_test_plat.Vmtest.GuestExec.{parsed, parse_exec_status}
use computing_test_plat.Vmtest.GuestExec.Replies.{
  by_signal, status_reply, parse_exec_status-status_reply,
}
use computing_test_plat.Vmtest.Config.{parse_args}
use computing_test_plat.Vmtest.Config.Laws.{InLimits, parse_args-InLimits}
use computing_test_plat.Vmtest.Junit.{TestResult, Outcome, passed, failed, skipped}
use computing_test_plat.Vmtest.Runner.{TestCase, returned, failure, run_tests}
use computing_test_plat.Vmtest.Runner.Laws.{Ran, run_tests-Ran}

abbrev hello : Text
hello = codes "hell"

parse_args-InLimits_example :
    InLimits (parse_args (codes "--vcpus" ∷ codes "0" ∷ codes "--list" ∷ [])).cfg
parse_args-InLimits_example =
    parse_args-InLimits (codes "--vcpus" ∷ codes "0" ∷ codes "--list" ∷ [])

abbrev test_result : Text → Outcome → TestResult
test_result suite outcome = record {
  suite = suite;
  name = codes "t";
  outcome = outcome;
  message = [];
}

abbrev results : List TestResult
results =
    test_result (codes "guest") passed
    ∷ test_result (codes "stress") skipped
    ∷ test_result (codes "guest") failed
    ∷ []

-- A context that counts the tests.
abbrev cases : List (TestCase ℕ)
cases =
    record { suite = codes "a"; name = codes "x"; fn = λ n. (failure (codes "no"), suc n) }
    ∷ record { suite = codes "b"; name = codes "y"; fn = λ n. (returned, suc n) }
    ∷ []

run_tests-Ran_example :
    (end : ℕ) × Ran ℕ (codes "b.") cases 0 (run_tests ℕ (λ n. 0) (codes "b.") cases 0).0 end
    × ((run_tests ℕ (λ n. 0) (codes "b.") cases 0).1 ≡ 0)
run_tests-Ran_example = run_tests-Ran ℕ (λ n. 0) (codes "b.") cases 0

-- A clock that only the sleeps move.
slept_for : Call → ℕ
slept_for (slept n) = n
slept_for _ = 0

unfoldable slept_so_far : History → ℕ
unfolding slept_for
slept_so_far [] = 0
slept_so_far (c ∷ h) = slept_so_far h + slept_for c

-- Every guest boots, and no agent answers.
abbrev env : (Text → Option Json) → Env
env parse = record {
  fuel = 1000000;
  pid = 7;
  absolute = λ path. path;
  opens = λ h. true;
  creates = λ h. some 1;
  state = λ h. state_number 1;
  done = λ h. true;
  info = λ h. some (2, 1048576);
  reply = λ h. none;
  forks = λ h. true;
  status = λ h. some (with_code 0);
  leaves = λ h. true;
  clock = slept_so_far;
  error = λ h. codes "no agent";
  parse = parse;
  dump = λ j. [];
  type_error = codes "type";
  float_value = pos 0;
}

abbrev silent : Env
silent = env λ text. none

-- A command that signal 9 killed after it had written one byte.
parse_exec_status-status_reply_example :
    parse_exec_status
      (env λ text. some (status_reply (by_signal 9) (some (111 ∷ [])) none))
      (codes "reply")
    ≡ parsed (record { exited = true; exit_code = pos 137; out = 111 ∷ []; err = [] })
parse_exec_status-status_reply_example =
    parse_exec_status-status_reply
      (env λ text. some (status_reply (by_signal 9) (some (111 ∷ [])) none)) (codes "reply")
      (by_signal 9) (some (111 ∷ [])) none (omega arith, tt) tt (omega arith) refl
