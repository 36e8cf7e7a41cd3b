-- ===== src/Vmtest/Junit.antt =====
-- vmtest/src/junit.cpp. The durations are doubles: what is printed for them is a parameter.
pub mod Totals
use computing_test_plat.Base.{
  ℕ, zero, suc, ◌+◌, List, [], ◌∷◌, ◌++◌, Bool, true, false, if◌then◌else◌, Text, codes, text_eq,
  any,
}
use computing_test_plat.Base.Ascii.{decimal}
use computing_test_plat.Vmtest.Util.{xml_escape}

pub data Outcome : Type 0 where
  passed failed skipped : Outcome

pub record TestResult : Type 0 where
  pub suite : Text
  pub name : Text
  pub outcome : Outcome
  pub message : Text

pub record Counts : Type 0 where
  pub tests : ℕ
  pub failures : ℕ
  pub skipped : ℕ

abbrev pub is_failed : Outcome → ℕ
is_failed passed = 0
is_failed failed = 1
is_failed skipped = 0

abbrev pub is_skipped : Outcome → ℕ
is_skipped passed = 0
is_skipped failed = 0
is_skipped skipped = 1

unfoldable pub count : List TestResult → Counts
count [] = record { tests = 0; failures = 0; skipped = 0 }
count (r ∷ rs) =
    let c = count rs in
    record {
      tests = 1 + c.tests;
      failures = is_failed r.outcome + c.failures;
      skipped = is_skipped r.outcome + c.skipped;
    }

-- The suites, each where it is seen first.
unfoldable pub order_from : List Text → List TestResult → List Text
unfolding text_eq
order_from seen [] = seen
order_from seen (r ∷ rs) =
    let again = order_from seen rs in
    let new = order_from (seen ++ (r.suite ∷ [])) rs in
    if any (text_eq r.suite) seen then again else new

-- `by_suite[suite]`.
unfoldable pub in_suite : Text → List TestResult → List TestResult
unfolding text_eq
in_suite suite [] = []
in_suite suite (r ∷ rs) =
    let rest = in_suite suite rs in if text_eq suite r.suite then r ∷ rest else rest

abbrev attribute : Text → Text → Text
attribute name value = codes " " ++ (name ++ (codes "=" ++ (34 ∷ (value ++ (34 ∷ [])))))

module _ (sum : List TestResult → Text) where
  abbrev head : Text → Text → List TestResult → Text
  head element name rs =
      let c = count rs in
      codes "<"
      ++ (element
          ++ (attribute (codes "name") (xml_escape name)
              ++ (attribute (codes "tests") (decimal c.tests)
                  ++ (attribute (codes "failures") (decimal c.failures)
                      ++ (attribute (codes "skipped") (decimal c.skipped)
                          ++ (attribute (codes "time") (sum rs) ++ (codes ">" ++ (10 ∷ []))))))))

  abbrev note : Text → Text → Text
  note element message =
      codes ">"
      ++ (10
          ∷ (codes "      <"
              ++ (element
                  ++ (attribute (codes "message") (xml_escape message)
                      ++ (codes "/>" ++ (10 ∷ (codes "    </testcase>" ++ (10 ∷ []))))))))

  abbrev result_element : TestResult → Text
  result_element r = elim r.outcome [
    | passed ↦ codes "/>" ++ (10 ∷ [])
    | failed ↦ note (codes "failure") r.message
    | skipped ↦ note (codes "skipped") r.message
  ]

  abbrev testcases : List TestResult → Text
  testcases [] = []
  testcases (r ∷ rs) =
      codes "    <testcase"
      ++ (attribute (codes "classname") (xml_escape r.suite)
          ++ (attribute (codes "name") (xml_escape r.name)
              ++ (attribute (codes "time") (sum (r ∷ [])) ++ (result_element r ++ testcases rs))))

  abbrev suites : List Text → List TestResult → Text
  suites [] results = []
  suites (s ∷ order) results =
      let rs = in_suite s results in
      codes "  "
      ++ (head (codes "testsuite") s rs
          ++ (testcases rs ++ (codes "  </testsuite>" ++ (10 ∷ suites order results))))

  unfoldable pub render_junit : Text → List TestResult → Text
  unfolding count order_from in_suite xml_escape decimal
  render_junit run_name results =
      codes "<?xml"
      ++ (attribute (codes "version") (codes "1.0")
          ++ (attribute (codes "encoding") (codes "UTF-8")
              ++ (codes "?>"
                  ++ (10
                      ∷ (head (codes "testsuites") run_name results
                          ++ (suites (order_from [] results) results
                              ++ (codes "</testsuites>" ++ (10 ∷ []))))))))
