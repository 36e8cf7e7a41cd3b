-- ===== src/Platcheck/Render/Exit.antt =====
-- platcheck/src/checks.cpp, `exit_code_for` and the counters of `render_text`; main.cpp.
use computing_test_plat.Base.{
  ℕ, suc, ◌+◌, ◌≤◌, ◌≡◌, ◌↔◌, refl, List, [], ◌∷◌, true, Any, length, arith, if◌then◌else◌, any,
  any_sound, any_complete,
}
use computing_test_plat.Platcheck.Host.{Status, pass, warn, fail, skip, CheckResult}
use computing_test_plat.Platcheck.Render.{
  exit_code_for, tally, is_fail, Tally, count_in, tally_from,
}

abbrev pub Failed : CheckResult → Type 0
Failed r = r.status ≡ fail

is_fail_iff : (r : CheckResult) → (is_fail r.status ≡ true) ↔ Failed r
is_fail_iff r = split r.status
  where
    split : (s : Status) → (is_fail s ≡ true) ↔ (s ≡ fail)
    split pass = (λ h. absurd (cc h), λ h. absurd (cc h))
    split warn = (λ h. absurd (cc h), λ h. absurd (cc h))
    split fail = (λ _. refl, λ _. refl)
    split skip = (λ h. absurd (cc h), λ h. absurd (cc h))

exit_code_any :
    (rs : List CheckResult) → exit_code_for rs ≡ (if any (λ r. is_fail r.status) rs then 1 else 0)
unfolding exit_code_for
exit_code_any [] = refl
exit_code_any (r ∷ rs) = let rest = exit_code_any rs in ground (arith, rest)

any-Failed_iff : (rs : List CheckResult) → (any (λ r. is_fail r.status) rs ≡ true) ↔ Any Failed rs
any-Failed_iff rs = (
  any_sound (λ r. is_fail r.status) Failed (λ r. (is_fail_iff r).0) (λ r. (is_fail_iff r).1) rs,
  any_complete (λ r. is_fail r.status) Failed (λ r. (is_fail_iff r).0) (λ r. (is_fail_iff r).1) rs,
)

-- The exit code is 1 exactly when some check of the results failed, and 0 otherwise.
pub exit_code_for_iff :
    (rs : List CheckResult) → ((exit_code_for rs ≡ 1) ↔ Any Failed rs) × (exit_code_for rs ≤ 1)
exit_code_for_iff rs =
    let code = exit_code_any rs in
    let (to, from) = any-Failed_iff rs in
    (
      (λ h. to (ground (arith, code, h)), λ h. let e = from h in ground (arith, code, e)),
      ground (arith, code),
    )

total : Tally → ℕ
total t = t.passed + t.warnings + t.failed + t.skipped

count_in-total : (t : Tally) (s : Status) → total (count_in t s) ≡ suc (total t)
unfolding total
count_in-total t pass = omega arith
count_in-total t warn = omega arith
count_in-total t fail = omega arith
count_in-total t skip = omega arith

count_in-failed :
    (t : Tally) (s : Status) → (count_in t s).failed ≡ t.failed + (if is_fail s then 1 else 0)
count_in-failed t pass = omega arith
count_in-failed t warn = omega arith
count_in-failed t fail = omega arith
count_in-failed t skip = omega arith

tally_from-total :
    (t : Tally) (rs : List CheckResult) → total (tally_from t rs) ≡ total t + length rs
unfolding tally_from
tally_from-total t [] = omega arith
tally_from-total t (r ∷ rs) =
    omega (arith, count_in-total t r.status, tally_from-total (count_in t r.status) rs)

tally_from-failed :
    (t : Tally) (rs : List CheckResult)
    → ((tally_from t rs).failed ≡ 0) ↔ ((t.failed ≡ 0) × (exit_code_for rs ≡ 0))
unfolding tally_from exit_code_for
tally_from-failed t [] = (λ h. (h, refl), λ h. h.0)
tally_from-failed t (r ∷ rs) =
    let here = count_in-failed t r.status in
    let (to, from) = tally_from-failed (count_in t r.status) rs in
    (λ h. let (a, b) = to h in ground (arith, here, a, b), λ h. from (ground (arith, here, h)))

-- The summary of the text report counts every check under exactly one status, and its number of
-- failed checks is 0 exactly when the exit code is 0.
pub tally-exit_code :
    (rs : List CheckResult)
    → ((tally rs).passed + (tally rs).warnings + (tally rs).failed + (tally rs).skipped ≡ length rs)
      × (((tally rs).failed ≡ 0) ↔ (exit_code_for rs ≡ 0))
unfolding tally total
tally-exit_code rs =
    let zeros : Tally = record { passed = 0; warnings = 0; failed = 0; skipped = 0 } in
    let (to, from) = tally_from-failed zeros rs in
    (omega (arith, tally_from-total zeros rs), (λ h. (to h).1, λ h. from (refl, h)))
