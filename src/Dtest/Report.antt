-- ===== src/Dtest/Report.antt =====
-- dtest/src/report.cpp. The durations are doubles: what a stream prints for them is a parameter.
-- `attempts.back()` has no meaning on an outcome without attempts; a report that asks for it is none.
pub mod Junit
pub mod Laws
pub mod Defined
use computing_test_plat.Base.{
  ℕ, zero, suc, ◌+◌, ◌-◌, List, [], ◌∷◌, ◌++◌, Option, none, some, Bool, true, false, ◌&&◌, ◌||◌,
  not, ltb, leb, ◌==◌, if◌then◌else◌, Text, codes, is_empty, length, drop, ◌>>=◌,
}
use computing_test_plat.Base.Int.{ℤ, pos, negsuc}
use computing_test_plat.Base.Ascii.{decimal}
use computing_test_plat.Dtest.Types.{
  Task, AttemptStatus, AttemptResult, AttemptRecord, FinalStatus, TaskOutcome, RunSummary,
}
use computing_test_plat.Dtest.Summary.{final_eq, flaky, count, flaky_count}
use computing_test_plat.Platcheck.Parse.{lines}

unfoldable pub xml_escape_byte : ℕ → Text
xml_escape_byte c =
    if c == 38
    then codes "&amp;"
    else if c == 60
    then codes "&lt;"
    else if c == 62
    then codes "&gt;"
    else if c == 34
    then codes "&quot;"
    else if c == 39
    then codes "&apos;"
    else if ltb c 32 && not (c == 10) && not (c == 9) && not (c == 13)
    then codes "?"
    else c ∷ []

unfoldable pub xml_escape : Text → Text
unfolding xml_escape_byte
xml_escape [] = []
xml_escape (c ∷ s) = xml_escape_byte c ++ xml_escape s

-- The text in reverse, in front of what is there.
unfoldable pub reverse_onto : Text → Text → Text
reverse_onto [] t = t
reverse_onto (c ∷ s) t = reverse_onto s (c ∷ t)

-- The loop that pops line ends, on the reversed text.
unfoldable pub pop_line_ends : Text → Text
pop_line_ends [] = []
pop_line_ends (c ∷ s) = let rest = pop_line_ends s in if c == 10 || c == 13 then rest else c ∷ s

-- The loop over `pos`, on the reversed text: up to the line end that makes the count `max_lines`.
unfoldable pub last_lines : ℕ → ℕ → Text → Text
last_lines max_lines count [] = []
last_lines max_lines count (c ∷ s) =
    let counted = last_lines max_lines (count + 1) s in
    let rest = last_lines max_lines count s in
    if c == 10 then (if leb max_lines (count + 1) then [] else c ∷ counted) else c ∷ rest

unfoldable pub last_bytes : Text → ℕ → Text
last_bytes t max_bytes = if ltb max_bytes (length t) then drop (length t - max_bytes) t else t

unfoldable pub tail : Text → ℕ → ℕ → Text
unfolding reverse_onto pop_line_ends last_lines last_bytes
tail s max_lines max_bytes =
    last_bytes (reverse_onto (last_lines max_lines 0 (pop_line_ends (reverse_onto s []))) [])
      max_bytes

-- `attempts.back()`.
abbrev pub last_attempt : List AttemptRecord → Option AttemptRecord
last_attempt [] = none
last_attempt (a ∷ []) = some a
last_attempt (a ∷ b ∷ as') = last_attempt (b ∷ as')

abbrev exit_text : ℤ → Text
exit_text (pos n) = codes "exit code " ++ decimal n
exit_text (negsuc n) = codes "failed"

abbrev status_text : AttemptResult → Text
status_text r = elim r.status [
  | AttemptStatus.passed ↦ codes "passed"
  | AttemptStatus.failed ↦ exit_text r.exit_code
  | AttemptStatus.timed_out ↦ codes "timed out"
  | AttemptStatus.agent_error ↦ codes "agent error"
]

unfoldable pub describe_last_attempt : TaskOutcome → Text
unfolding decimal
describe_last_attempt o = elim (last_attempt o.attempts) [
  | none ↦ o.message
  | some a ↦
      status_text a.result
      ++ (if is_empty a.result.message then [] else codes " (" ++ (a.result.message ++ codes ")"))
]

unfoldable pub last_agent : TaskOutcome → Text
last_agent o = elim (last_attempt o.attempts) [ none ↦ codes "unscheduled" | some a ↦ a.agent ]

unfoldable pub tag : TaskOutcome → Text
unfolding flaky
tag o = elim o.status [
  | FinalStatus.passed ↦ if flaky o then codes "FLAKY" else codes "PASS"
  | FinalStatus.timed_out ↦ codes "TIMEOUT"
  | FinalStatus.unschedulable ↦ codes "SKIPPED"
  | FinalStatus.failed ↦ codes "FAIL"
]

abbrev quoted_lines : List Text → Text
quoted_lines [] = []
quoted_lines (l ∷ ls) = codes "        | " ++ (l ++ (10 ∷ quoted_lines ls))

abbrev output_of : AttemptResult → Text
output_of r = if is_empty r.err then r.out else r.err

abbrev pub is_passed : FinalStatus → Bool
is_passed f = final_eq f FinalStatus.passed

abbrev attempts_text : List AttemptRecord → Text
attempts_text as' =
    if ltb 1 (length as') then codes ", " ++ (decimal (length as') ++ codes " attempts") else []

module _ (seconds : AttemptRecord → Text) where
  abbrev pub ran_text : TaskOutcome → AttemptRecord → Text
  ran_text o a =
      codes " on "
      ++ (last_agent o
          ++ (codes " ("
              ++ (seconds a
                  ++ (codes "s"
                      ++ (attempts_text o.attempts
                          ++ (codes ")"
                              ++ (if is_passed o.status
                                  then 10 ∷ []
                                  else codes " - "
                                    ++ (describe_last_attempt o
                                        ++ (10
                                            ∷ quoted_lines
                                                (lines (tail (output_of a.result) 5 800)))))))))))

  unfoldable pub outcome_text : TaskOutcome → Option Text
  unfolding tag final_eq last_agent describe_last_attempt tail
  outcome_text o =
      let head = codes "[" ++ (tag o ++ (codes "] " ++ o.task.name)) in
      if final_eq o.status FinalStatus.unschedulable
      then some (head ++ (codes " - " ++ (o.message ++ (10 ∷ []))))
      else (last_attempt o.attempts >>= λ a. some (head ++ ran_text o a))

  unfoldable pub outcome_texts : List TaskOutcome → Option Text
  unfolding outcome_text
  outcome_texts [] = some []
  outcome_texts (o ∷ os) = do t ← outcome_text o; ts ← outcome_texts os; some (t ++ ts)

  abbrev retired : List Text → Text
  retired [] = []
  retired (a ∷ as') = codes " " ++ (a ++ retired as')

  abbrev dead_text : List Text → Text
  dead_text [] = []
  dead_text (a ∷ as') =
      codes "agents retired after infrastructure errors:" ++ (retired (a ∷ as') ++ (10 ∷ []))

  abbrev flaky_text : ℕ → Text
  flaky_text zero = []
  flaky_text (suc n) = codes " (" ++ (decimal (suc n) ++ codes " flaky)")

  abbrev totals_text : Text → RunSummary → Text
  totals_text wall s =
      (10 ∷ decimal (length s.outcomes))
      ++ (codes " tasks: "
          ++ (decimal (count FinalStatus.passed s)
              ++ (codes " passed"
                  ++ (flaky_text (flaky_count s)
                      ++ (codes ", "
                          ++ (decimal (count FinalStatus.failed s)
                              ++ (codes " failed, "
                                  ++ (decimal (count FinalStatus.timed_out s)
                                      ++ (codes " timed out, "
                                          ++ (decimal (count FinalStatus.unschedulable s)
                                              ++ (codes " unschedulable in "
                                                  ++ (wall
                                                      ++ (codes "s"
                                                          ++ (10
                                                            ∷ dead_text s.dead_agents))))))))))))))

  -- `wall` is what is printed for `wall_seconds`.
  unfoldable pub render_text : Text → RunSummary → Option Text
  unfolding outcome_texts
  render_text wall s = do body ← outcome_texts s.outcomes; some (body ++ totals_text wall s)
