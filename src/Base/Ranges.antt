-- ===== src/Base/Ranges.antt =====
-- Arrays as functions of an index below a bound: the write, the loops over the range that look for
-- an index, and sums over the range.
use Prim.Native.Nat.{ℕ, zero, suc, ◌+◌, ◌≤◌, ◌<◌}
use mathlib.Core.Path.{◌≡◌, refl, sym, subst, ◌∙◌}
use mathlib.Core.Logic.{inl, inr, ◌≢◌}
use mathlib.Core.Bool.{Bool, true, false, false≢true}
use mathlib.Core.Option.{Option, none, some}
use native.Mathlib.Omega.{arith}
use computing_test_plat.Base.Tests.{◌==◌, ==_iff, ==_self, if◌then◌else◌, Bool-cases, Option-cases}

abbrev pub update {ℓ} : {A : Type ℓ} → (ℕ → A) → ℕ → A → ℕ → A
update f i v j = if j == i then v else f j

-- `for (i = start; i < start + count; ++i) if (p(i)) return i;`
pub first_from : (ℕ → Bool) → ℕ → ℕ → Option ℕ
first_from p zero start = none
first_from p (suc count) start =
    let rest = first_from p count (suc start) in if p start then some start else rest

unfoldable pub first_index : (ℕ → Bool) → ℕ → Option ℕ
unfolding first_from
first_index p n = first_from p n 0

abbrev is_some : Option ℕ → Bool
is_some none = false
is_some (some _) = true

unfoldable pub any_below : ℕ → (ℕ → Bool) → Bool
unfolding first_index
any_below n p = is_some (first_index p n)

first_from-some :
    (p : ℕ → Bool) (n s i : ℕ) → first_from p n s ≡ some i → (s ≤ i) × (i < s + n) × (p i ≡ true)
unfolding first_from
first_from-some p zero s i e = ground arith
first_from-some p (suc n) s i e = elim (Bool-cases (p s)) [
  | inl hit ↦ ground arith
  | inr miss ↦
      let (lo, hi, h) = first_from-some p n (suc s) i (ground arith) in
      (omega arith, omega arith, h)
]

first_from-none :
    (p : ℕ → Bool) (n s i : ℕ) → first_from p n s ≡ none → s ≤ i → i < s + n → p i ≡ false
unfolding first_from
first_from-none p zero s i e lo hi = absurd (omega arith)
first_from-none p (suc n) s i e lo hi = ground (arith, first_from-none p n (suc s) i)

pub first_index-some : (p : ℕ → Bool) (n i : ℕ) → first_index p n ≡ some i → (i < n) × (p i ≡ true)
unfolding first_index
first_index-some p n i e = let (lo, hi, h) = first_from-some p n 0 i e in (omega arith, h)

pub first_index-none : (p : ℕ → Bool) (n i : ℕ) → first_index p n ≡ none → i < n → p i ≡ false
unfolding first_index
first_index-none p n i e h = first_from-none p n 0 i e (omega arith) (omega arith)

pub any_below-true :
    (n : ℕ) (p : ℕ → Bool) → any_below n p ≡ true → (i : ℕ) × (i < n) × (p i ≡ true)
unfolding any_below
any_below-true n p e = elim (Option-cases (first_index p n)) [
  | inl missing ↦ absurd (ground arith)
  | inr (i, found) ↦ let (h, t) = first_index-some p n i found in (i, h, t)
]

pub any_below-false : (n : ℕ) (p : ℕ → Bool) (i : ℕ) → any_below n p ≡ false → i < n → p i ≡ false
unfolding any_below
any_below-false n p i e h = elim (Option-cases (first_index p n)) [
  | inl missing ↦ first_index-none p n i missing h
  | inr (j, found) ↦ absurd (ground arith)
]

-- g 0 + ... + g (n - 1).
unfoldable pub sum_below : ℕ → (ℕ → ℕ) → ℕ
sum_below zero g = 0
sum_below (suc n) g = g n + sum_below n g

pub sum_below-congr :
    (n : ℕ) (f g : ℕ → ℕ) → ((i : ℕ) → i < n → f i ≡ g i) → sum_below n f ≡ sum_below n g
unfolding sum_below
sum_below-congr zero f g h = refl
sum_below-congr (suc n) f g h =
    omega (arith, h n (omega arith), sum_below-congr n f g (λ i p. h i (omega arith)))

-- Sums of arrays that differ at one index.
pub sum_below-update :
    (n i : ℕ) (f g : ℕ → ℕ)
    → i < n
    → ((j : ℕ) → j ≢ i → f j ≡ g j)
    → sum_below n f + g i ≡ sum_below n g + f i
unfolding sum_below
sum_below-update zero i f g h e = absurd (omega arith)
sum_below-update (suc n) i f g h e = elim (Bool-cases (n == i)) [
  | inl same ↦
      let eq : n ≡ i = ground arith in
      let rest : sum_below n f ≡ sum_below n g = sum_below-congr n f g (λ j p. e j (omega arith)) in
      ground (arith, eq, rest)
  | inr other ↦
      let ne : n ≢ i = ground arith in
      omega (arith, e n ne, sum_below-update n i f g (ground arith) e)
]

pub sum_below-pos : (n : ℕ) (g : ℕ → ℕ) → 0 < sum_below n g → (i : ℕ) × (i < n) × (0 < g i)
unfolding sum_below
sum_below-pos zero g h = absurd (omega arith)
sum_below-pos (suc n) g h = elim (Bool-cases (g n == 0)) [
  | inl empty ↦ let (i, p, q) = sum_below-pos n g (ground arith) in (i, omega arith, q)
  | inr full ↦ (n, omega arith, ground arith)
]

pub le-sum_below : (n : ℕ) (g : ℕ → ℕ) (i : ℕ) → i < n → g i ≤ sum_below n g
unfolding sum_below
le-sum_below zero g i h = absurd (omega arith)
le-sum_below (suc n) g i h = elim (Bool-cases (n == i)) [
  | inl same ↦ let eq : n ≡ i = ground arith in rw (← eq) (omega arith)
  | inr other ↦ omega (arith, le-sum_below n g i (ground arith))
]

pub update_self {ℓ} : {A : Type ℓ} (f : ℕ → A) (i : ℕ) (v : A) → update f i v i ≡ v
update_self f i v = rw (==_self i)

pub update-ne {ℓ} : {A : Type ℓ} (f : ℕ → A) (i j : ℕ) (v : A) → j ≢ i → update f i v j ≡ f j
update-ne f i j v ne = elim (Bool-cases (j == i)) [
  | inl same ↦ absurd (ne ((==_iff j i).0 same))
  | inr other ↦ rw other
]

-- What holds of the written value and of the others holds of the array.
pub update-each {ℓ κ} :
    {A : Type ℓ} (P : ℕ → A → Type κ) (f : ℕ → A) (i : ℕ) (v : A)
    → P i v
    → ((j : ℕ) → j ≢ i → P j (f j))
    → (j : ℕ) → P j (update f i v j)
update-each P f i v new old j = elim (Bool-cases (j == i)) [
  | inl same ↦ rw same (subst (λ k. P k v) (sym ((==_iff j i).0 same)) new)
  | inr other ↦ rw other (old j (λ e. false≢true (sym other ∙ (rw e (==_self i)))))
]

pub sum_below-ones : (n : ℕ) (g : ℕ → ℕ) → ((i : ℕ) → g i ≡ 1) → sum_below n g ≡ n
unfolding sum_below
sum_below-ones zero g h = refl
sum_below-ones (suc n) g h = omega (arith, h n, sum_below-ones n g h)

pub sum_below-zeros : (n : ℕ) (g : ℕ → ℕ) → ((i : ℕ) → i < n → g i ≡ 0) → sum_below n g ≡ 0
unfolding sum_below
sum_below-zeros zero g h = refl
sum_below-zeros (suc n) g h =
    omega (arith, h n (omega arith), sum_below-zeros n g (λ i p. h i (omega arith)))

pub sum_below-le : (n : ℕ) (f g : ℕ → ℕ) → ((i : ℕ) → f i ≤ g i) → sum_below n f ≤ sum_below n g
unfolding sum_below
sum_below-le zero f g h = omega arith
sum_below-le (suc n) f g h = omega (arith, h n, sum_below-le n f g h)

-- Two terms of a sum.
pub add-le-sum_below :
    (n : ℕ) (g : ℕ → ℕ) (i j : ℕ) → i < n → j < n → i ≢ j → g i + g j ≤ sum_below n g
unfolding sum_below
add-le-sum_below zero g i j hi hj ne = absurd (omega arith)
add-le-sum_below (suc n) g i j hi hj ne = elim (Bool-cases (n == i)) [
  | inl same ↦
      let e : n ≡ i = ground arith in
      let rest = le-sum_below n g j (omega arith) in rw (← e) (omega (arith, rest))
  | inr other ↦ elim (Bool-cases (n == j)) [
    | inl same ↦
        let e : n ≡ j = ground arith in
        let rest = le-sum_below n g i (ground arith) in rw (← e) (omega (arith, rest))
    | inr later ↦ omega (arith, add-le-sum_below n g i j (ground arith) (ground arith) ne)
  ]
]

pub sum_below-head : (n : ℕ) (g : ℕ → ℕ) → sum_below (suc n) g ≡ g 0 + sum_below n (λ i. g (suc i))
unfolding sum_below
sum_below-head zero g = omega arith
sum_below-head (suc n) g = omega (arith, sum_below-head n g)

pub sum_below_mono :
    (n : ℕ) (f g : ℕ → ℕ) → ((i : ℕ) → i < n → f i ≤ g i) → sum_below n f ≤ sum_below n g
unfolding sum_below
sum_below_mono zero f g h = omega arith
sum_below_mono (suc n) f g h =
    omega (arith, h n (omega arith), sum_below_mono n f g (λ i p. h i (omega arith)))

-- One term may be larger, by c.
pub sum_below-bump :
    (n i c : ℕ) (f g : ℕ → ℕ)
    → f i ≤ g i + c
    → ((j : ℕ) → j ≢ i → f j ≤ g j)
    → sum_below n f ≤ sum_below n g + c
unfolding sum_below
sum_below-bump zero i c f g more h = omega arith
sum_below-bump (suc n) i c f g more h = elim (Bool-cases (n == i)) [
  | inl same ↦
      let e : n ≡ i = ground arith in
      let rest = sum_below_mono n f g (λ j p. h j (omega arith)) in
      let top = subst (λ k. f k ≤ g k + c) (sym e) more in omega (arith, rest, top)
  | inr other ↦ omega (arith, h n (λ e. absurd (ground arith)), sum_below-bump n i c f g more h)
]
