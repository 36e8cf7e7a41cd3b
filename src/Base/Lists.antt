-- ===== src/Base/Lists.antt =====
-- Lists measured and indexed by native numbers, under the library's names.
use Prim.Native.Nat.{ℕ, zero, suc, ◌+◌}
use mathlib.Core.Path.{◌≡◌, refl}
use mathlib.Core.List.{List, [], ◌∷◌, ◌++◌}
use mathlib.Core.Bool.{Bool, true, false, ◌&&◌, ◌||◌}
use native.Mathlib.Omega.{arith}
use mathlib.Core.Logic.{◌⊎◌, inl, inr}
use computing_test_plat.Base.Tests.{Bool-cases}

module _ {ℓ} {A : Type ℓ} where
  abbrev pub length : List A → ℕ
  length [] = 0
  length (x ∷ xs) = suc (length xs)

  abbrev pub get_or : List A → ℕ → A → A
  get_or [] i d = d
  get_or (x ∷ xs) zero d = x
  get_or (x ∷ xs) (suc i) d = get_or xs i d

  abbrev pub take : ℕ → List A → List A
  take zero xs = []
  take (suc n) [] = []
  take (suc n) (x ∷ xs) = x ∷ take n xs

  abbrev pub drop : ℕ → List A → List A
  drop zero xs = xs
  drop (suc n) [] = []
  drop (suc n) (x ∷ xs) = drop n xs

  abbrev pub replicate : ℕ → A → List A
  replicate zero a = []
  replicate (suc n) a = a ∷ replicate n a

  -- `std::any_of` and the loops that return at the first hit.
  abbrev pub any : (A → Bool) → List A → Bool
  any p [] = false
  any p (x ∷ xs) = p x || any p xs

  abbrev pub all : (A → Bool) → List A → Bool
  all p [] = true
  all p (x ∷ xs) = p x && all p xs

  pub length-append : (xs ys : List A) → length (xs ++ ys) ≡ length xs + length ys
  length-append [] ys = omega arith
  length-append (x ∷ xs) ys = omega (arith, length-append xs ys)

  pub any-append : (p : A → Bool) (xs ys : List A) → any p (xs ++ ys) ≡ (any p xs || any p ys)
  any-append p [] ys = refl
  any-append p (x ∷ xs) ys = ground (arith, any-append p xs ys)

module _ {ℓ κ} {A : Type ℓ} where
  abbrev pub All : (A → Type κ) → List A → Type κ
  All P [] = Unit
  All P (x ∷ xs) = P x × All P xs

  pub All-append : (P : A → Type κ) (xs ys : List A) → All P xs → All P ys → All P (xs ++ ys)
  All-append P [] ys hx hy = hy
  All-append P (x ∷ xs) ys hx hy = (hx.0, All-append P xs ys hx.1 hy)

-- "There is an element", with the element kept.
abbrev pub Any {ℓ} : {A : Type ℓ} → (A → Type 0) → List A → Type 0
Any P [] = ⊥
Any P (x ∷ xs) = P x ⊎ Any P xs

-- A loop that looks for an element decides whether there is one.
module _ {ℓ} {A : Type ℓ} (p : A → Bool) (P : A → Type 0) (sound : (x : A) → p x ≡ true → P x)
    (complete : (x : A) → P x → p x ≡ true) where
  pub any_sound : (xs : List A) → any p xs ≡ true → Any P xs
  any_sound [] h = absurd (ground arith)
  any_sound (x ∷ xs) h = elim (Bool-cases (p x)) [
    | inl hit ↦ inl (sound x hit)
    | inr miss ↦ inr (any_sound xs (ground arith))
  ]

  pub any_complete : (xs : List A) → Any P xs → any p xs ≡ true
  any_complete (x ∷ xs) (inl h) = rw (complete x h)
  any_complete (x ∷ xs) (inr h) = ground (arith, any_complete xs h)
  any_complete [] h = elim h [ ]

  pub all_sound : (xs : List A) → all p xs ≡ true → All P xs
  all_sound [] h = tt
  all_sound (x ∷ xs) h = (sound x (ground arith), all_sound xs (ground arith))

  pub all_complete : (xs : List A) → All P xs → all p xs ≡ true
  all_complete [] h = refl
  all_complete (x ∷ xs) (h, hs) = rw (complete x h) (all_complete xs hs)
