-- ===== src/Vmtest/GuestExec.antt =====
-- vmtest/src/guest_exec.cpp: commands in the guest, over the guest agent. `json::parse` and `dump` are
-- parameters, and so are the message of the exception that a member of another type gives, and the
-- number that a floating-point member is taken for.
pub mod Replies
pub mod Quiet
use computing_test_plat.Base.{
  ℕ, ◌+◌, ◌-◌, ◌*◌, ◌/◌, ◌%◌, ◌^◌, List, [], ◌∷◌, ◌++◌, Option, none, some, Bool, true, false, ltb,
  if◌then◌else◌, Text, codes,
}
use computing_test_plat.Base.Int.{ℤ, pos, negsuc, ◌+ℤ◌}
use computing_test_plat.Base.Ascii.{decimal}
use computing_test_plat.Dtest.Json.{
  Json, null, boolean, unsigned, negative, float, string, array, object, Jsons, no_more, element,
  Members, no_member, member, entries, find,
}
use computing_test_plat.Vmtest.Util.{base64_decode}
use computing_test_plat.Vmtest.Machine.{
  failure, Domain, Env, World, M, ◌>>=◌, ◌>>◌, pure, throw, wait_until, ExecResult, no_result,
  modify, gets,
}
use computing_test_plat.Vmtest.Virt.{agent_command}

-- A value, or the message of the exception.
pub data Parsed (A : Type 0) : Type 0 where
  parsed : A → Parsed A
  refused : Text → Parsed A

abbrev pub and_then : {A B : Type 0} → Parsed A → (A → Parsed B) → Parsed B
and_then (parsed a) f = f a
and_then (refused m) f = refused m

-- A whole number in a word of twice `half` values, as the conversion to a signed type takes it.
abbrev pub signed : ℕ → ℕ → ℤ
signed half n = let k = n % (2 * half) in if ltb k half then pos k else negsuc (2 * half - 1 - k)

abbrev pub wrap : ℕ → ℤ → ℤ
wrap half (pos n) = signed half n
wrap half (negsuc n) = signed half (2 * half - 1 - n % (2 * half))

module _ (env : Env) where
  -- `get<long>()` and `get<int>()`; a floating-point number is truncated.
  abbrev get_number : ℕ → Json → Parsed ℤ
  get_number half (unsigned n) = parsed (signed half n)
  get_number half (negative n) = parsed (wrap half (negsuc n))
  get_number half float = parsed (wrap half env.float_value)
  get_number half null = refused env.type_error
  get_number half (boolean b) = refused env.type_error
  get_number half (string s) = refused env.type_error
  get_number half (array js) = refused env.type_error
  get_number half (object ms) = refused env.type_error

  unfoldable pub get_long : Json → Parsed ℤ
  get_long j = get_number (2 ^ 63) j

  -- A Boolean converts to `int`, not to `long`.
  unfoldable pub get_int : Json → Parsed ℤ
  get_int (boolean b) = parsed (if b then pos 1 else pos 0)
  get_int j = get_number (2 ^ 31) j

  abbrev pub get_text : Json → Parsed Text
  get_text (string s) = parsed s
  get_text _ = refused env.type_error

  abbrev pub get_bool : Json → Parsed Bool
  get_bool (boolean b) = parsed b
  get_bool _ = refused env.type_error

  -- The members of an object; another value contains none.
  abbrev pub members : Json → List (Text × Json)
  members (object ms) = entries ms
  members _ = []

  abbrev described : Json → Option Json → Parsed Text
  described e none = parsed (env.dump e)
  described e (some d) = get_text d

  abbrev agent_error : {A : Type 0} → Json → Parsed A
  agent_error e =
      and_then (described e (find (members e) (codes "desc")))
        λ d. refused (codes "guest agent error: " ++ d)

  abbrev without_error : List (Text × Json) → Option Json → Parsed (List (Text × Json))
  without_error es none = parsed es
  without_error es (some e) = agent_error e

  abbrev reply_of : Text → Option Json → Parsed (List (Text × Json))
  reply_of text (some (object ms)) = without_error (entries ms) (find (entries ms) (codes "error"))
  reply_of text _ = refused (codes "guest agent returned invalid JSON: " ++ text)

  unfoldable pub parse_reply : Text → Parsed (List (Text × Json))
  unfolding find
  parse_reply text = reply_of text (env.parse text)

  abbrev field_text : Option Json → Text
  field_text (some (string s)) = base64_decode s
  field_text _ = []

  unfoldable pub decode_field : List (Text × Json) → Text → Text
  unfolding base64_decode find
  decode_field r key = field_text (find r key)

  abbrev pid_of : Option Json → Parsed (Option ℤ)
  pid_of none = parsed none
  pid_of (some j) = and_then (get_long j) λ n. parsed (some n)

  abbrev returned_pid : Option Json → Parsed (Option ℤ)
  returned_pid (some (object ms)) = pid_of (find (entries ms) (codes "pid"))
  returned_pid _ = parsed none

  unfoldable pub parse_exec_pid : Text → Parsed (Option ℤ)
  unfolding parse_reply get_long find
  parse_exec_pid text = and_then (parse_reply text) λ j. returned_pid (find j (codes "return"))

  -- `r.value("exited", false)`.
  abbrev exited_in : Option Json → Parsed Bool
  exited_in none = parsed false
  exited_in (some j) = get_bool j

  -- The exit code of a command that exited, or 128 and the number of its signal.
  abbrev code_in : Option Json → Option Json → Parsed ℤ
  code_in (some c) s = get_int c
  code_in none (some s) = and_then (get_int s) λ n. parsed (pos 128 +ℤ n)
  code_in none none = parsed (negsuc 0)

  abbrev status_in : List (Text × Json) → Parsed ExecResult
  status_in r = and_then (exited_in (find r (codes "exited"))) λ exited.
      if exited
      then and_then (code_in (find r (codes "exitcode")) (find r (codes "signal"))) (λ code.
        parsed (record {
          exited = true;
          exit_code = code;
          out = decode_field r (codes "out-data");
          err = decode_field r (codes "err-data");
        }))
      else parsed no_result

  abbrev returned_status : Option Json → Parsed ExecResult
  returned_status (some (object ms)) = status_in (entries ms)
  returned_status _ = parsed no_result

  unfoldable pub parse_exec_status : Text → Parsed ExecResult
  unfolding parse_reply decode_field get_int find ◌+ℤ◌
  parse_exec_status text =
      and_then (parse_reply text) λ j. returned_status (find j (codes "return"))

  abbrev pub or_throw : {A : Type 0} → Parsed A → M A
  or_throw (parsed a) = pure a
  or_throw (refused m) = throw (failure m)

  abbrev texts : List Text → Jsons
  texts [] = no_more
  texts (s ∷ ss) = element (string s) (texts ss)

  -- Objects have their members in the order of the keys.
  unfoldable pub exec_command : Text → List Text → Text
  exec_command path args = env.dump (
      object (
        member (codes "arguments")
          (object (
            member (codes "arg") (array (texts args)) (
              member (codes "capture-output") (boolean true)
                (member (codes "path") (string path) no_member))))
          (member (codes "execute") (string (codes "guest-exec")) no_member)))

  abbrev number : ℤ → Json
  number (pos n) = unsigned n
  number (negsuc n) = negative n

  unfoldable pub status_command : ℤ → Text
  status_command pid = env.dump (
      object (
        member (codes "arguments") (object (member (codes "pid") (number pid) no_member))
          (member (codes "execute") (string (codes "guest-exec-status")) no_member)))

  -- The predicate of the wait: the last status is kept.
  unfoldable pub poll_status : Domain → ℤ → M Bool
  unfolding parse_exec_status status_command
  poll_status vm pid = agent_command env vm (status_command pid) 10 >>= λ text.
      or_throw (parse_exec_status text) >>= λ last.
      modify (λ w. record w { last = last }) >> pure last.exited

  abbrev pub timed_out : Text → ℕ → Text
  timed_out path timeout_s =
      codes "guest command timed out after " ++ (decimal timeout_s ++ (codes "s: " ++ path))

  abbrev pub finished : Text → ℕ → Bool → M ExecResult
  finished path timeout_s true = gets λ w. w.last
  finished path timeout_s false = throw (failure (timed_out path timeout_s))

  abbrev pub wait_for : Domain → Text → ℕ → Option ℤ → M ExecResult
  wait_for vm path timeout_s none = throw (failure (codes "guest-exec returned no pid"))
  wait_for vm path timeout_s (some pid) =
      modify (λ w. record w { last = no_result })
      >> (wait_until env (timeout_s * 1000) 200 (poll_status vm pid) >>= finished path timeout_s)

  unfoldable pub guest_exec : Domain → Text → List Text → ℕ → M ExecResult
  unfolding exec_command parse_exec_pid poll_status decimal
  guest_exec vm path args timeout_s = agent_command env vm (exec_command path args) 10 >>= λ text.
      or_throw (parse_exec_pid text) >>= wait_for vm path timeout_s

  unfoldable pub guest_sh : Domain → Text → ℕ → M ExecResult
  unfolding guest_exec
  guest_sh vm script timeout_s =
      guest_exec vm (codes "/bin/sh") (codes "-c" ∷ script ∷ []) timeout_s
