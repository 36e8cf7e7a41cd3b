-- ===== src/Platcheck/Render.antt =====
-- platcheck/src/checks.cpp, the output part, and main.cpp.
pub mod Json
pub mod Exit
use computing_test_plat.Base.{
  ℕ, ◌+◌, ◌/◌, ◌%◌, List, [], ◌∷◌, ◌++◌, Option, none, some, Bool, true, false, ◌&&◌, ◌||◌, not,
  ltb, ◌==◌, if◌then◌else◌, Text, codes, is_empty, text_eq, ◌>>=◌,
}
use computing_test_plat.Base.Ascii.{decimal}
use computing_test_plat.Platcheck.Host.{
  Host, Status, pass, warn, fail, skip, CheckResult, status_to_string,
}
use computing_test_plat.Platcheck.Iommu.{IommuDevice, IommuGroup, read_iommu_groups}
use computing_test_plat.Platcheck.Checks.All.{run_all}

abbrev pub hex_digit : ℕ → ℕ
hex_digit d = if ltb d 10 then 48 + d else 87 + d

-- `\u%04x` of a byte.
abbrev pub unicode_escape : ℕ → Text
unicode_escape c = 92 ∷ 117 ∷ 48 ∷ 48 ∷ hex_digit (c / 16) ∷ hex_digit (c % 16) ∷ []

unfoldable pub escape_byte : ℕ → Text
escape_byte c =
    if c == 34
    then 92 ∷ 34 ∷ []
    else if c == 92
    then 92 ∷ 92 ∷ []
    else if c == 10
    then 92 ∷ 110 ∷ []
    else if c == 13
    then 92 ∷ 114 ∷ []
    else if c == 9
    then 92 ∷ 116 ∷ []
    else if ltb c 32
    then unicode_escape c
    else c ∷ []

unfoldable pub json_escape : Text → Text
unfolding escape_byte
json_escape [] = []
json_escape (c ∷ s) = escape_byte c ++ json_escape s

abbrev pub is_fail : Status → Bool
is_fail fail = true
is_fail pass = false
is_fail warn = false
is_fail skip = false

unfoldable pub exit_code_for : List CheckResult → ℕ
exit_code_for [] = 0
exit_code_for (r ∷ rs) = let rest = exit_code_for rs in if is_fail r.status then 1 else rest

pub record Tally : Type 0 where
  pub passed : ℕ
  pub warnings : ℕ
  pub failed : ℕ
  pub skipped : ℕ

abbrev pub count_in : Tally → Status → Tally
count_in t pass = record t { passed = t.passed + 1 }
count_in t warn = record t { warnings = t.warnings + 1 }
count_in t fail = record t { failed = t.failed + 1 }
count_in t skip = record t { skipped = t.skipped + 1 }

-- The counters of `render_text`.
unfoldable pub tally_from : Tally → List CheckResult → Tally
tally_from t [] = t
tally_from t (r ∷ rs) = tally_from (count_in t r.status) rs

unfoldable pub tally : List CheckResult → Tally
unfolding tally_from
tally rs = tally_from (record { passed = 0; warnings = 0; failed = 0; skipped = 0 }) rs

abbrev calls_for_action : Status → Bool
calls_for_action pass = false
calls_for_action warn = true
calls_for_action fail = true
calls_for_action skip = false

abbrev result_lines : CheckResult → Text
result_lines r =
    (91 ∷ status_to_string r.status)
    ++ (codes "] "
        ++ (r.title
            ++ (codes ": "
                ++ (r.detail
                    ++ (10
                        ∷ (if not (is_empty r.remediation) && calls_for_action r.status
                            then codes "       -> " ++ (r.remediation ++ (10 ∷ []))
                            else []))))))

abbrev all_lines : List CheckResult → Text
all_lines [] = []
all_lines (r ∷ rs) = result_lines r ++ all_lines rs

unfoldable pub render_text : List CheckResult → Text
unfolding tally status_to_string decimal
render_text rs =
    let t = tally rs in
    all_lines rs
    ++ ((10 ∷ codes "Summary: ")
        ++ (decimal t.passed
            ++ (codes " passed, "
                ++ (decimal t.warnings
                    ++ (codes " warnings, "
                        ++ (decimal t.failed
                            ++ (codes " failed, "
                                ++ (decimal t.skipped ++ (codes " skipped" ++ (10 ∷ []))))))))))

-- A member of an object: the name in quotes, and the value in quotes behind a colon.
abbrev member : Text → Text → Text
member name value = 34 ∷ (name ++ ((34 ∷ codes ": ") ++ (34 ∷ (value ++ (34 ∷ [])))))

abbrev json_check : CheckResult → Text
json_check r =
    codes "    {"
    ++ (member (codes "id") (json_escape r.id)
        ++ (codes ", "
            ++ (member (codes "title") (json_escape r.title)
                ++ (codes ", "
                    ++ (member (codes "status") (status_to_string r.status)
                        ++ (codes ", "
                            ++ (member (codes "detail") (json_escape r.detail)
                                ++ (codes ", "
                                    ++ (member (codes "remediation") (json_escape r.remediation)
                                        ++ codes "}")))))))))

abbrev json_checks : List CheckResult → Text
json_checks [] = []
json_checks (r ∷ []) = json_check r ++ (10 ∷ [])
json_checks (r ∷ r' ∷ rs) = json_check r ++ (codes "," ++ (10 ∷ json_checks (r' ∷ rs)))

unfoldable pub render_json : List CheckResult → Text
unfolding json_escape exit_code_for status_to_string
render_json rs =
    (123 ∷ 10 ∷ (codes "  " ++ (34 ∷ (codes "checks" ++ (34 ∷ (codes ": [" ++ (10 ∷ [])))))))
    ++ (json_checks rs
        ++ (codes "  ],"
            ++ (10
                ∷ (codes "  "
                    ++ (34
                        ∷ (codes "ok"
                            ++ (34
                                ∷ (codes ": "
                                    ++ ((if exit_code_for rs == 0
                                          then codes "true"
                                          else codes "false")
                                        ++ (10 ∷ 125 ∷ 10 ∷ []))))))))))

abbrev dash_if_empty : Text → Text
dash_if_empty s = if is_empty s then codes "-" else s

abbrev device_line : IommuDevice → Text
device_line d =
    codes "  "
    ++ (d.bdf
        ++ (codes "  vendor="
            ++ (d.vendor
                ++ (codes " device="
                    ++ (d.device
                        ++ (codes " class="
                            ++ (d.cls
                                ++ (codes " driver="
                                    ++ (dash_if_empty d.driver ++ (10 ∷ []))))))))))

abbrev device_lines : List IommuDevice → Text
device_lines [] = []
device_lines (d ∷ ds) = device_line d ++ device_lines ds

abbrev group_lines : List IommuGroup → Text
group_lines [] = []
group_lines (g ∷ gs) =
    codes "IOMMU group " ++ (decimal g.id ++ (10 ∷ (device_lines g.devices ++ group_lines gs)))

unfoldable pub render_groups : List IommuGroup → Text
unfolding decimal
render_groups [] = codes "No IOMMU groups found." ++ (10 ∷ [])
render_groups (g ∷ gs) = group_lines (g ∷ gs)

-- The options of `main`, or its early exit.
pub record Options : Type 0 where
  pub json : Bool
  pub groups : Bool
  pub root : Text

pub data Command : Type 0 where
  run : Options → Command
  quit : ℕ → Command

unfoldable pub parse_args : Options → List Text → Command
unfolding text_eq
parse_args o [] = run o
parse_args o (a ∷ []) =
    if text_eq a (codes "--json")
    then run (record o { json = true })
    else if text_eq a (codes "--groups")
    then run (record o { groups = true })
    else if text_eq a (codes "--help") || text_eq a (codes "-h")
    then quit 0
    else quit 2
parse_args o (a ∷ b ∷ args) =
    let after_json = parse_args (record o { json = true }) (b ∷ args) in
    let after_groups = parse_args (record o { groups = true }) (b ∷ args) in
    let after_root = parse_args (record o { root = b }) args in
    if text_eq a (codes "--json")
    then after_json
    else if text_eq a (codes "--groups")
    then after_groups
    else if text_eq a (codes "--root")
    then after_root
    else if text_eq a (codes "--help") || text_eq a (codes "-h")
    then quit 0
    else quit 2

abbrev default_options : Options
default_options = record { json = false; groups = false; root = [] }

-- What `main` prints on standard output and returns; none where an exception leaves it.
abbrev report : Host → Options → List CheckResult → Option Text
report h o results =
    if o.groups && not o.json
    then (read_iommu_groups h o.root >>= λ gs.
        some (render_text results ++ (10 ∷ render_groups gs)))
    else some (if o.json then render_json results else render_text results)

abbrev perform : Host → Command → Option (Text × ℕ)
perform h (quit code) = some ([], code)
perform h (run o) = do
  results ← run_all h o.root
  out ← report h o results
  some (out, exit_code_for results)

unfoldable pub main : Host → List Text → Option (Text × ℕ)
unfolding parse_args run_all exit_code_for
main h args = perform h (parse_args default_options args)
