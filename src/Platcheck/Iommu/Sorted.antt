-- ===== src/Platcheck/Iommu/Sorted.antt =====
-- platcheck/src/checks.cpp: the order of the groups and of the devices in a group.
use computing_test_plat.Base.{
  ◌≡◌, refl, List, [], ◌∷◌, Bool, true, false, if_both, All, arith, Text, text_ltb,
}
use mathlib.Core.List.{Permᴰ}
use mathlib.Core.List.Permᴰ
use computing_test_plat.Platcheck.Iommu.{insert, sort, by_id, by_bdf}

text_ltb-asym : (s t : Text) → text_ltb s t ≡ true → text_ltb t s ≡ false
unfolding text_ltb
text_ltb-asym s [] h = absurd (cc h)
text_ltb-asym [] (b ∷ t) h = refl
text_ltb-asym (a ∷ s) (b ∷ t) h = ground (arith, text_ltb-asym s t)

text_ltb_trans : (s t u : Text) → text_ltb t s ≡ false → text_ltb u t ≡ false → text_ltb u s ≡ false
unfolding text_ltb
text_ltb_trans [] t [] h k = refl
text_ltb_trans (a ∷ s) t [] h k = absurd (impossible t h k)
  where
    impossible : (t : Text) → text_ltb t (a ∷ s) ≡ false → text_ltb [] t ≡ false → ⊥
    impossible [] h k = cc h
    impossible (b ∷ t) h k = cc k
text_ltb_trans [] t (c ∷ u) h k = refl
text_ltb_trans (a ∷ s) [] (c ∷ u) h k = absurd (cc h)
text_ltb_trans (a ∷ s) (b ∷ t) (c ∷ u) h k = ground (arith, text_ltb_trans s t u)

-- A strict order by which a list can be sorted.
pub record Order {ℓ} {A : Type ℓ} (lt : A → A → Bool) : Type ℓ where
  pub asym : (a b : A) → lt a b ≡ true → lt b a ≡ false
  pub trans : (a b c : A) → lt b a ≡ false → lt c b ≡ false → lt c a ≡ false

pub by_bdf-Order : Order by_bdf
by_bdf-Order = record {
  asym = λ a b h. text_ltb-asym a.bdf b.bdf h;
  trans = λ a b c h k. text_ltb_trans a.bdf b.bdf c.bdf h k;
}

pub by_id-Order : Order by_id
by_id-Order = record { asym = λ a b h. ground arith; trans = λ a b c h k. ground arith }

module _ {ℓ} {A : Type ℓ} (lt : A → A → Bool) where
  -- No element stands before a smaller one.
  abbrev pub Sorted : List A → Type ℓ
  Sorted [] = Unit
  Sorted (x ∷ xs) = All (λ y. lt y x ≡ false) xs × Sorted xs

  insert-Perm : (x : A) (xs : List A) → Permᴰ (x ∷ xs) (insert lt x xs)
  unfolding insert
  insert-Perm x [] = Permᴰ.refl (x ∷ [])
  insert-Perm x (y ∷ ys) =
      if_both (λ (r : List A). Permᴰ (x ∷ y ∷ ys) r) (lt y x) (y ∷ insert lt x ys) (x ∷ y ∷ ys)
        (λ _. Permᴰ.trans (Permᴰ.swap refl refl) (Permᴰ.cons refl (insert-Perm x ys)))
        (λ _. Permᴰ.refl (x ∷ y ∷ ys))

  pub sort-Perm : (xs : List A) → Permᴰ xs (sort lt xs)
  unfolding sort
  sort-Perm [] = Permᴰ.nil
  sort-Perm (x ∷ xs) = Permᴰ.trans (Permᴰ.cons refl (sort-Perm xs)) (insert-Perm x (sort lt xs))

  insert-All : (P : A → Type 0) (x : A) (xs : List A) → P x → All P xs → All P (insert lt x xs)
  unfolding insert
  insert-All P x [] h hs = (h, tt)
  insert-All P x (y ∷ ys) h hs =
      if_both (λ (r : List A). All P r) (lt y x) (y ∷ insert lt x ys) (x ∷ y ∷ ys)
        (λ _. (hs.0, insert-All P x ys h hs.1)) (λ _. (h, hs))

  pub sort-All : (P : A → Type 0) (xs : List A) → All P xs → All P (sort lt xs)
  unfolding sort
  sort-All P [] h = tt
  sort-All P (x ∷ xs) h = insert-All P x (sort lt xs) h.0 (sort-All P xs h.1)

  module _ (order : Order lt) where
    not_below :
        (x y : A) (ys : List A)
        → lt y x ≡ false
        → All (λ z. lt z y ≡ false) ys
        → All (λ z. lt z x ≡ false) ys
    not_below x y [] h hs = tt
    not_below x y (z ∷ zs) h hs = (order.trans x y z h hs.0, not_below x y zs h hs.1)

    insert-Sorted : (x : A) (xs : List A) → Sorted xs → Sorted (insert lt x xs)
    unfolding insert
    insert-Sorted x [] h = (tt, tt)
    insert-Sorted x (y ∷ ys) h =
        if_both Sorted (lt y x) (y ∷ insert lt x ys) (x ∷ y ∷ ys)
          (λ below. (
            insert-All (λ z. lt z y ≡ false) x ys (order.asym y x below) h.0,
            insert-Sorted x ys h.1,
          ))
          (λ above. ((above, not_below x y ys above h.0), h))

    pub sort-Sorted : (xs : List A) → Sorted (sort lt xs)
    unfolding sort
    sort-Sorted [] = tt
    sort-Sorted (x ∷ xs) = insert-Sorted x (sort lt xs) (sort-Sorted xs)
