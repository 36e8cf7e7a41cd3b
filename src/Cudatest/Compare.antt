-- ===== src/Cudatest/Compare.antt =====
-- cudatest/src/reference.cpp, `allclose`: what the result says of the pairs.
use computing_test_plat.Base.{
  ℕ, ◌+◌, ◌≡◌, ◌⊎◌, refl, ap, ◌∙◌, List, [], ◌∷◌, ◌++◌, Bool, true, false, not, ◌&&◌, inl, inr,
  Bool-cases, if◌then◌else◌, All, length, arith, sym, map, if_both, ◌≢◌, ◌↔◌, ◌==◌, ◌||◌,
}
use computing_test_plat.Cudatest.{
  Floats, CompareResult, compare_values, observe, allclose_from, equal_result, Verdict, zip,
  allclose,
}

module _ {F D : Type 0} (ops : Floats F D) (rtol atol : D) (equal_nan : Bool) where
  -- The value matches what is expected: both are NaN and this is allowed, or neither is NaN and either one
  -- of them is infinite and they are equal, or both are finite and differ by at most the absolute tolerance
  -- and the relative tolerance times the size of the expected value.
  abbrev pub Matches : F × F → Type 0
  Matches (a, e) =
      ((equal_nan ≡ true) × (ops.is_nan a ≡ true) × (ops.is_nan e ≡ true))
      ⊎ ((ops.is_nan a ≡ false)
          × (ops.is_nan e ≡ false)
          × ((((ops.is_inf a ≡ true) ⊎ (ops.is_inf e ≡ true)) × (ops.equal a e ≡ true))
              ⊎ ((ops.is_inf a ≡ false)
                  × (ops.is_inf e ≡ false)
                  × (ops.le (ops.fabs (ops.minus (ops.wide a) (ops.wide e)))
                        (ops.plus atol (ops.times rtol (ops.fabs (ops.wide e))))
                      ≡ true))))

  abbrev matches : F → F → Bool
  matches a e = (compare_values ops rtol atol equal_nan a e).match

  -- The match of the code, as one test.
  decided : (a b c d same near : Bool) → Bool
  decided a b c d same near =
      if a || b then equal_nan && (a && b) else if c || d then same else near

  matches_lem :
      (a e : F)
      → matches a e
        ≡ decided (ops.is_nan a) (ops.is_nan e) (ops.is_inf a) (ops.is_inf e) (ops.equal a e) (
            ops.le
              (ops.fabs (ops.minus (ops.wide a) (ops.wide e)))
              (ops.plus atol (ops.times rtol (ops.fabs (ops.wide e)))))
  unfolding compare_values decided
  matches_lem a e = cases (ops.is_nan a || ops.is_nan e) (ops.is_inf a || ops.is_inf e) _ _ _
    where
      cases :
          (n i : Bool) (x y z : Verdict ops rtol atol equal_nan)
          → (if n then x else if i then y else z).match
            ≡ (if n then x.match else if i then y.match else z.match)
      cases true i x y z = refl
      cases false true x y z = refl
      cases false false x y z = refl

  decided_iff :
      (a b c d same near : Bool)
      → (decided a b c d same near ≡ true) ↔ (
          ((equal_nan ≡ true) × (a ≡ true) × (b ≡ true))
          ⊎ ((a ≡ false)
              × (b ≡ false)
              × ((((c ≡ true) ⊎ (d ≡ true)) × (same ≡ true))
                  ⊎ ((c ≡ false) × (d ≡ false) × (near ≡ true)))))
  unfolding decided
  decided_iff true true c d same near = (
    (λ e. inl (ground (arith, e), refl, refl)),
    (λ x. elim x [ inl (n, _, _) ↦ ground (arith, n) | inr (n, _, _) ↦ cc n ]),
  )
  decided_iff true false c d same near = (
    (λ e. absurd (ground (arith, e))),
    (λ x. elim x [ inl (_, _, n) ↦ cc n | inr (n, _, _) ↦ cc n ]),
  )
  decided_iff false true c d same near = (
    (λ e. absurd (ground (arith, e))),
    (λ x. elim x [ inl (_, n, _) ↦ cc n | inr (_, n, _) ↦ cc n ]),
  )
  decided_iff false false true d same near = (
    (λ e. inr (refl, refl, inl (inl refl, e))),
    (λ x. elim x [
      | inl (_, n, _) ↦ cc n
      | inr (_, _, inl (_, e)) ↦ e
      | inr (_, _, inr (n, _, _)) ↦ cc n
    ]),
  )
  decided_iff false false false true same near = (
    (λ e. inr (refl, refl, inl (inr refl, e))),
    (λ x. elim x [
      | inl (_, n, _) ↦ cc n
      | inr (_, _, inl (_, e)) ↦ e
      | inr (_, _, inr (_, n, _)) ↦ cc n
    ]),
  )
  decided_iff false false false false same near = (
    (λ e. inr (refl, refl, inr (refl, refl, e))),
    (λ x. elim x [
      | inl (_, n, _) ↦ cc n
      | inr (_, _, inl (inl n, _)) ↦ cc n
      | inr (_, _, inl (inr n, _)) ↦ cc n
      | inr (_, _, inr (_, _, e)) ↦ e
    ]),
  )

  matches_iff : (a e : F) → (matches a e ≡ true) ↔ Matches (a, e)
  matches_iff a e =
      let (to, from) =
        decided_iff (ops.is_nan a) (ops.is_nan e) (ops.is_inf a) (ops.is_inf e) _ _ in
      ((λ h. to (sym (matches_lem a e) ∙ h)), (λ m. matches_lem a e ∙ from m))

  abbrev pub run : ℕ → List (F × F) → CompareResult D → CompareResult D
  run = allclose_from ops rtol atol equal_nan

  observe-ok :
      (i : ℕ) (a e : F) (res : CompareResult D)
      → (observe ops rtol atol equal_nan i a e res).ok
        ≡ ((compare_values ops rtol atol equal_nan a e).match && res.ok)
  unfolding observe
  observe-ok i a e res = by_cases (compare_values ops rtol atol equal_nan a e).match res.ok
    where
      by_cases : (m k : Bool) → (if not m && k then false else k) ≡ (m && k)
      by_cases true true = refl
      by_cases true false = refl
      by_cases false true = refl
      by_cases false false = refl

  observe-first_bad :
      (i : ℕ) (a e : F) (res : CompareResult D)
      → (observe ops rtol atol equal_nan i a e res).first_bad ≡ (
          if not (compare_values ops rtol atol equal_nan a e).match && res.ok
          then i
          else res.first_bad)
  unfolding observe
  observe-first_bad i a e res = refl

  and_false : (m k : Bool) → k ≡ false → (m && k) ≡ false
  and_false true k h = h
  and_false false k h = refl

  if_false : (i j : ℕ) (b : Bool) → b ≡ false → (if b then i else j) ≡ j
  if_false i j true h = cc h
  if_false i j false h = refl

  -- Once there is a mismatch, the first is kept.
  kept :
      (i : ℕ) (pairs : List (F × F)) (res : CompareResult D)
      → res.ok ≡ false
      → ((run i pairs res).ok ≡ false) × ((run i pairs res).first_bad ≡ res.first_bad)
  unfolding allclose_from
  kept i [] res bad = (bad, refl)
  kept i ((a, e) ∷ pairs) res bad =
      let m = (compare_values ops rtol atol equal_nan a e).match in
      let next = observe ops rtol atol equal_nan i a e res in
      let (still, same) = kept (i + 1) pairs next (observe-ok i a e res ∙ and_false m res.ok bad) in
      (
        still,
        same
            ∙ observe-first_bad i a e res
            ∙ if_false i res.first_bad (not m && res.ok) (and_false (not m) res.ok bad),
      )

  -- All match, or the result names the first that does not.
  pub record Found (i : ℕ) (pairs : List (F × F)) (res : CompareResult D) : Type 0 where
    pub front : List (F × F)
    pub bad : F × F
    pub back : List (F × F)
    pub parts : pairs ≡ front ++ (bad ∷ back)
    pub good : All Matches front
    pub differs : ¬ Matches bad
    pub named : res.first_bad ≡ i + length front
    pub not_ok : res.ok ≡ false

  pub run_lem :
      (i : ℕ) (pairs : List (F × F)) (res : CompareResult D)
      → res.ok ≡ true
      → (((run i pairs res).ok ≡ true) × All Matches pairs) ⊎ Found i pairs (run i pairs res)
  unfolding allclose_from
  run_lem i [] res fine = inl (fine, tt)
  run_lem i ((a, e) ∷ pairs) res fine =
      elim (Bool-cases (compare_values ops rtol atol equal_nan a e).match) [
        | inl hit ↦ elim (run_lem (i + 1) pairs next (observe-ok i a e res ∙ both hit)) [
          | inl (ok, good) ↦ inl (ok, ((matches_iff a e).0 hit, good))
          | inr f ↦ inr (record {
            front = (a, e) ∷ f.front;
            bad = f.bad;
            back = f.back;
            parts = ap (λ ps. (a, e) ∷ ps) f.parts;
            good = ((matches_iff a e).0 hit, f.good);
            differs = f.differs;
            named = omega (arith, f.named);
            not_ok = f.not_ok;
          })
        ]
        | inr miss ↦
            let (still, same) =
              kept (i + 1) pairs next
                (observe-ok i a e res ∙ ap (λ (m : Bool). m && res.ok) miss) in
            inr (record {
              front = [];
              bad = (a, e);
              back = pairs;
              parts = refl;
              good = tt;
              differs = λ m. let match = (matches_iff a e).1 m in cc (match, miss);
              named = same ∙ observe-first_bad i a e res ∙ at_first miss;
              not_ok = still;
            })
      ]
    where
      next : CompareResult D
      next = observe ops rtol atol equal_nan i a e res

      both : {m : Bool} → m ≡ true → (m && res.ok) ≡ true
      both {m} h = ground (arith, h, fine)

      at_first : {m : Bool} → m ≡ false → (if not m && res.ok then i else res.first_bad) ≡ i + 0
      at_first {m} h = ground (arith, h, fine)

  zip-map :
      (actual expected : List F)
      → length actual ≡ length expected
      → (actual ≡ map (λ (p : F × F). p.0) (zip ops rtol atol equal_nan actual expected))
        × (expected ≡ map (λ (p : F × F). p.1) (zip ops rtol atol equal_nan actual expected))
  zip-map [] [] h = (refl, refl)
  zip-map [] (e ∷ es) h = absurd (omega (arith, h))
  zip-map (a ∷ as') [] h = absurd (omega (arith, h))
  zip-map (a ∷ as') (e ∷ es) h =
      let (x, y) = zip-map as' es (omega (arith, h)) in (ap (λ t. a ∷ t) x, ap (λ t. e ∷ t) y)

  -- The two series are those of a list of pairs.
  abbrev pub Paired : List (F × F) → List F → List F → Type 0
  Paired pairs actual expected =
      (actual ≡ map (λ (p : F × F). p.0) pairs) × (expected ≡ map (λ (p : F × F). p.1) pairs)

  -- The comparison of two vectors: where their lengths differ it says that they are not close; else, pair
  -- by pair, it says that they are close and all pairs match, or it says that they are not and the index
  -- that it gives is that of the first pair that does not match.
  pub allclose_first_bad :
      (actual expected : List F)
      → let res = allclose ops rtol atol equal_nan actual expected in
        ((length actual ≢ length expected) × (res.ok ≡ false))
        ⊎ ((pairs : List (F × F)) × Paired pairs actual expected
            × (((res.ok ≡ true) × All Matches pairs) ⊎ Found 0 pairs res))
  unfolding allclose
  allclose_first_bad actual expected =
      let Goal : CompareResult D → Type 0 = λ res.
        ((length actual ≢ length expected) × (res.ok ≡ false))
        ⊎ ((pairs : List (F × F)) × Paired pairs actual expected
            × (((res.ok ≡ true) × All Matches pairs) ⊎ Found 0 pairs res)) in
      if_both Goal (length actual == length expected) _ _
        (λ same. inr (
          zip ops rtol atol equal_nan actual expected,
          zip-map actual expected (ground (arith, same)),
          run_lem 0 (zip ops rtol atol equal_nan actual expected)
              (equal_result ops rtol atol equal_nan) refl,
        ))
        (λ differ. inl ((λ e. absurd (ground (arith, differ, e))), refl))
