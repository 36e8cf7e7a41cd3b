-- ===== src/Dtest/Report/Junit.antt =====
-- dtest/src/report.cpp, `render_junit`. What is printed for the sums of durations is a parameter.
use computing_test_plat.Base.{
  ◌+◌, List, [], ◌∷◌, ◌++◌, Option, some, ◌&&◌, not, if◌then◌else◌, Text, codes, length, ◌>>=◌,
}
use computing_test_plat.Base.Ascii.{decimal}
use computing_test_plat.Dtest.Types.{AttemptRecord, FinalStatus, TaskOutcome, RunSummary}
use computing_test_plat.Dtest.Summary.{final_eq, flaky, count}
use computing_test_plat.Dtest.Report.{
  xml_escape, tail, last_attempt, last_agent, describe_last_attempt, is_passed,
}

-- An attribute: a space, the name, and the value in quotes.
abbrev attribute : Text → Text → Text
attribute name value = codes " " ++ (name ++ (codes "=" ++ (34 ∷ (value ++ (34 ∷ [])))))

abbrev newline : Text
newline = 10 ∷ []

module _ (seconds : List AttemptRecord → Text) where
  abbrev pub flaky_note : TaskOutcome → Text
  flaky_note o =
      if flaky o
      then codes "      <system-out>flaky: passed on attempt "
        ++ (decimal (length o.attempts)
            ++ (codes " of "
                ++ (decimal (length o.attempts)
                    ++ (codes " (earlier attempts failed)</system-out>" ++ newline))))
      else []

  abbrev pub failure_element : TaskOutcome → AttemptRecord → Text
  failure_element o a =
      codes "      <failure"
      ++ (attribute (codes "message") (xml_escape (describe_last_attempt o))
          ++ (codes ">"
              ++ (xml_escape (tail a.result.err 40 4000) ++ (codes "</failure>" ++ newline))))

  abbrev pub verdict_element : TaskOutcome → Option Text
  verdict_element o =
      if final_eq o.status FinalStatus.unschedulable
      then some (
          codes "      <skipped"
          ++ (attribute (codes "message") (xml_escape o.message) ++ (codes "/>" ++ newline)))
      else if not (is_passed o.status)
      then (last_attempt o.attempts >>= λ a. some (failure_element o a))
      else some []

  abbrev case_head : TaskOutcome → Text
  case_head o =
      codes "    <testcase"
      ++ (attribute (codes "classname") (xml_escape (last_agent o))
          ++ (attribute (codes "name") (xml_escape o.task.name)
              ++ attribute (codes "time") (seconds o.attempts)))

  unfoldable pub testcase : TaskOutcome → Option Text
  unfolding flaky final_eq xml_escape tail last_agent describe_last_attempt decimal
  testcase o =
      if is_passed o.status && not (flaky o)
      then some (case_head o ++ (codes "/>" ++ newline))
      else (verdict_element o >>= λ v. some (
          case_head o
          ++ (codes ">"
              ++ (newline ++ (v ++ (flaky_note o ++ (codes "    </testcase>" ++ newline)))))))

  unfoldable pub testcases : List TaskOutcome → Option Text
  unfolding testcase
  testcases [] = some []
  testcases (o ∷ os) = do t ← testcase o; ts ← testcases os; some (t ++ ts)

  abbrev suite_head : Text → Text → Text → RunSummary → Text
  suite_head element name total s =
      codes "<"
      ++ (element
          ++ (attribute (codes "name") (xml_escape name)
              ++ (attribute (codes "tests") (decimal (length s.outcomes))
                  ++ (attribute (codes "failures")
                        (decimal (count FinalStatus.failed s + count FinalStatus.timed_out s))
                      ++ (attribute (codes "skipped") (decimal (count FinalStatus.unschedulable s))
                          ++ (attribute (codes "time") total ++ (codes ">" ++ newline)))))))

  -- `total` is what is printed for the sum of all durations.
  unfoldable pub render_junit : Text → Text → RunSummary → Option Text
  unfolding testcases count xml_escape decimal
  render_junit suite_name total s = do
    body ← testcases s.outcomes
    some (
        codes "<?xml"
        ++ (attribute (codes "version") (codes "1.0")
            ++ (attribute (codes "encoding") (codes "UTF-8")
                ++ (codes "?>"
                    ++ (newline
                        ++ (suite_head (codes "testsuites") suite_name total s
                            ++ (codes "  "
                                ++ (suite_head (codes "testsuite") suite_name total s
                                    ++ (body
                                        ++ (codes "  </testsuite>"
                                            ++ (newline
                                                ++ (codes "</testsuites>" ++ newline))))))))))))
