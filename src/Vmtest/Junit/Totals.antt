-- ===== src/Vmtest/Junit/Totals.antt =====
-- vmtest/src/junit.cpp: the counts of the suites and of the whole report.
use computing_test_plat.Base.{
  ℕ, ◌+◌, ◌≡◌, refl, ◌∙◌, sym, List, [], ◌∷◌, ◌++◌, true, false, if◌then◌else◌, if_both, Text,
  text_eq, text_eq_refl, text_eq_iff, any, any-append, arith, Bool-cases, inl, inr,
}
use computing_test_plat.Vmtest.Junit.{
  TestResult, count, order_from, in_suite, is_failed, is_skipped,
}

-- What the suites of a report count together.
abbrev pub shared : (List TestResult → ℕ) → List Text → List TestResult → ℕ
shared f [] rs = 0
shared f (s ∷ order) rs = f (in_suite s rs) + shared f order rs

-- How often a suite stands in a list.
abbrev times : Text → List Text → ℕ
times x [] = 0
times x (s ∷ order) = (if text_eq s x then 1 else 0) + times x order

times-append : (x : Text) (a b : List Text) → times x (a ++ b) ≡ times x a + times x b
times-append x [] b = omega arith
times-append x (s ∷ a) b = omega (arith, times-append x a b)

flip : (s t : Text) → text_eq s t ≡ false → text_eq t s ≡ false
flip s t h = elim (Bool-cases (text_eq t s)) [
  | inl e ↦ absurd (cc (rw ((text_eq_iff t s).0 e) at h, text_eq_refl s))
  | inr e ↦ e
]

absent : (x : Text) (seen : List Text) → any (text_eq x) seen ≡ false → times x seen ≡ 0
absent x [] h = refl
absent x (s ∷ seen) h =
    let here : text_eq x s ≡ false = ground (arith, h) in
    let rest : any (text_eq x) seen ≡ false = ground (arith, h) in
    let left = absent x seen rest in
    let none_here = flip x s here in ground (arith, left, none_here)

-- Every suite that is known stands once.
abbrev Once : List Text → Type 0
Once seen = (x : Text) → any (text_eq x) seen ≡ true → times x seen ≡ 1

Once-extend :
    (seen : List Text) (y : Text)
    → Once seen
    → any (text_eq y) seen ≡ false
    → Once (seen ++ (y ∷ []))
Once-extend seen y once new x h =
    let split = any-append (text_eq x) seen (y ∷ []) in
    let sum = times-append x seen (y ∷ []) in
    elim (Bool-cases (any (text_eq x) seen)) [
      | inl old ↦ elim (Bool-cases (text_eq y x)) [
        | inl same ↦ absurd (cc (rw ((text_eq_iff y x).0 same) at new, old))
        | inr other ↦ let one = once x old in ground (arith, sum, one, other)
      ]
      | inr missing ↦
          let same : text_eq x y ≡ true = ground (arith, split, h, missing) in
          let back : text_eq y x ≡ true = rw ((text_eq_iff x y).0 same) (text_eq_refl y) in
          let zero_before = absent x seen missing in ground (arith, sum, zero_before, back)
    ]

order_from-Once : (seen : List Text) (rs : List TestResult) → Once seen → Once (order_from seen rs)
unfolding order_from
order_from-Once seen [] once = once
order_from-Once seen (r ∷ rs) once =
    if_both Once (any (text_eq r.suite) seen) _ _ (λ _. order_from-Once seen rs once)
      (λ new. order_from-Once (seen ++ (r.suite ∷ [])) rs (Once-extend seen r.suite once new))

order_from-keeps :
    (seen : List Text) (rs : List TestResult) (x : Text)
    → any (text_eq x) seen ≡ true
    → any (text_eq x) (order_from seen rs) ≡ true
unfolding order_from
order_from-keeps seen [] x h = h
order_from-keeps seen (r ∷ rs) x h =
    if_both (λ (o : List Text). any (text_eq x) o ≡ true) (any (text_eq r.suite) seen) _ _
      (λ _. order_from-keeps seen rs x h)
      (λ _.
        let split = any-append (text_eq x) seen (r.suite ∷ []) in
        order_from-keeps (seen ++ (r.suite ∷ [])) rs x (ground (arith, split, h)))

order_from-first :
    (seen : List Text) (r : TestResult) (rs : List TestResult)
    → any (text_eq r.suite) (order_from seen (r ∷ rs)) ≡ true
unfolding order_from
order_from-first seen r rs =
    if_both (λ (o : List Text). any (text_eq r.suite) o ≡ true) (any (text_eq r.suite) seen) _ _
      (λ old. order_from-keeps seen rs r.suite old)
      (λ _.
        let split = any-append (text_eq r.suite) seen (r.suite ∷ []) in
        let self = text_eq_refl r.suite in
        order_from-keeps (seen ++ (r.suite ∷ [])) rs r.suite (ground (arith, split, self)))

-- Every suite of the results is in the order.
abbrev Covered : List Text → List TestResult → Type 0
Covered order [] = Unit
Covered order (r ∷ rs) = (any (text_eq r.suite) order ≡ true) × Covered order rs

order_from-Covered : (seen : List Text) (rs : List TestResult) → Covered (order_from seen rs) rs
unfolding order_from
order_from-Covered seen [] = tt
order_from-Covered seen (r ∷ rs) = (
  order_from-first seen r rs,
  if_both (λ (o : List Text). Covered o rs) (any (text_eq r.suite) seen) _ _
      (λ _. order_from-Covered seen rs) (λ _. order_from-Covered (seen ++ (r.suite ∷ [])) rs),
)

-- The weight of a result, as often as its suite stands in the order.
abbrev weighted : ℕ → Text → List Text → ℕ
weighted w x [] = 0
weighted w x (s ∷ order) = (if text_eq s x then w else 0) + weighted w x order

weighted-none : (w : ℕ) (x : Text) (order : List Text) → times x order ≡ 0 → weighted w x order ≡ 0
weighted-none w x [] h = refl
weighted-none w x (s ∷ order) h =
    let rest : times x order ≡ 0 = ground (arith, h) in
    let left = weighted-none w x order rest in ground (arith, h, left)

weighted-once : (w : ℕ) (x : Text) (order : List Text) → times x order ≡ 1 → weighted w x order ≡ w
weighted-once w x [] h = absurd (omega (arith, h))
weighted-once w x (s ∷ order) h = elim (Bool-cases (text_eq s x)) [
  | inl here ↦
      let rest : times x order ≡ 0 = ground (arith, h, here) in
      let left = weighted-none w x order rest in ground (arith, here, left)
  | inr other ↦
      let rest : times x order ≡ 1 = ground (arith, h, other) in
      let left = weighted-once w x order rest in ground (arith, other, left)
]

-- A count adds up what each result weighs.
module _ (f : List TestResult → ℕ) (w : TestResult → ℕ) (none : f [] ≡ 0)
    (cons : (r : TestResult) (rs : List TestResult) → f (r ∷ rs) ≡ w r + f rs) where
  shared-cons :
      (order : List Text) (r : TestResult) (rs : List TestResult)
      → shared f order (r ∷ rs) ≡ weighted (w r) r.suite order + shared f order rs
  unfolding in_suite
  shared-cons [] r rs = omega arith
  shared-cons (s ∷ order) r rs =
      let rest = shared-cons order r rs in
      if_both
        (λ (l : List TestResult).
          f l + shared f order (r ∷ rs)
          ≡ (if text_eq s r.suite then w r else 0)
            + weighted (w r) r.suite order
            + (f (in_suite s rs) + shared f order rs))
        (text_eq s r.suite) (r ∷ in_suite s rs) (in_suite s rs)
        (λ here. let more = cons r (in_suite s rs) in ground (arith, here, more, rest))
        (λ other. ground (arith, other, rest))

  shared-nil : (order : List Text) → shared f order [] ≡ 0
  unfolding in_suite
  shared-nil [] = refl
  shared-nil (s ∷ order) = omega (arith, none, shared-nil order)

  shared-all :
      (order : List Text) (rs : List TestResult)
      → Once order
      → Covered order rs
      → shared f order rs ≡ f rs
  shared-all order [] once c = shared-nil order ∙ sym none
  shared-all order (r ∷ rs) once c = omega (
    arith,
    shared-cons order r rs,
    weighted-once (w r) r.suite order (once r.suite c.0),
    cons r rs,
    shared-all order rs once c.1,
  )

-- The suites of the report share out the results: the tests, the failures and the skipped tests that
-- the suites name add up to those that the whole report names, whatever the results.
pub suites-share :
    (rs : List TestResult)
    → (shared (λ l. (count l).tests) (order_from [] rs) rs ≡ (count rs).tests)
      × (shared (λ l. (count l).failures) (order_from [] rs) rs ≡ (count rs).failures)
      × (shared (λ l. (count l).skipped) (order_from [] rs) rs ≡ (count rs).skipped)
unfolding count
suites-share rs =
    let once = order_from-Once [] rs (λ x h. absurd (cc h)) in
    let covered = order_from-Covered [] rs in
    let order = order_from [] rs in
    (
      shared-all (λ l. (count l).tests) (λ r. 1) refl (λ r rs. refl) order rs once covered,
      shared-all (λ l. (count l).failures) (λ r. is_failed r.outcome) refl (λ r rs. refl) order rs
          once covered,
      shared-all (λ l. (count l).skipped) (λ r. is_skipped r.outcome) refl (λ r rs. refl) order rs
          once covered,
    )
