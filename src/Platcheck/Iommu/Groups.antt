-- ===== src/Platcheck/Iommu/Groups.antt =====
-- platcheck/src/checks.cpp: what `read_iommu_groups` gives.
use computing_test_plat.Base.{
  ◌≡◌, List, [], ◌∷◌, ◌++◌, Option, some, if_both, All, Text, codes, map, ◌>>=◌, Option-cases, inl,
  inr, subst, ℕ, Bool, true, false, ◌≢◌, ◌↔◌, ◌^◌, ltb, refl, all, Any, arith, >>=-eq-some, ◌⊎◌,
  sym, ◌∙◌, text_ltb,
}
use mathlib.Core.List.{Permᴰ}
use computing_test_plat.Platcheck.Host.{Host}
use computing_test_plat.Platcheck.Iommu.{
  IommuDevice, IommuGroup, read_iommu_groups, read_groups, read_group, read_device, sort, by_id,
  by_bdf, stoi, is_group_name, insert,
}
use computing_test_plat.Platcheck.Iommu.Sorted.{
  Sorted, sort-Sorted, sort-Perm, sort-All, by_id-Order, by_bdf-Order,
}
use computing_test_plat.Platcheck.Iommu.Devices.{
  IsDigit, Perm-map, DevicesOf, sort-DevicesOf, number, digits_from-number,
}
use computing_test_plat.Base.Ascii.{digits_from, is_digit}

-- The name of a group is one or more digits.
abbrev pub Digits : Text → Type 0
Digits name = (name ≢ []) × All IsDigit name

-- The group has the number that the name says in decimal, and its devices are those that the entry of
-- this name lists, each with what its own directory says of it, in the order of their addresses.
abbrev pub Of : Host → Text → Text → Text → IommuGroup → Type 0
Of h root base name g =
    (g.id ≡ number name)
    × DevicesOf h root (h.entries (base ++ (codes "/" ++ (name ++ codes "/devices")))) g.devices
    × Sorted (λ (a b : IommuDevice). text_ltb a.bdf b.bdf) g.devices

-- The group comes from an entry of the directory.
abbrev pub Listed : Host → Text → Text → IommuGroup → Type 0
Listed h root base g = Any (λ name. Digits name × Of h root base name g) (h.entries base)

-- An entry whose name is a number has its group.
abbrev pub Covered : Host → Text → Text → List IommuGroup → Text → Type 0
Covered h root base gs name = Digits name → Any (Of h root base name) gs

-- The entries whose names are numbers.
abbrev Numbered : List Text → List Text → Type 0
Numbered [] chosen = chosen ≡ []
Numbered (e ∷ es) chosen =
    (Digits e × ((rest : List Text) × (chosen ≡ e ∷ rest) × Numbered es rest))
    ⊎ (¬ Digits e × Numbered es chosen)

-- The numbers of the groups are those of the entries, each once.
abbrev pub Numbers : List Text → List IommuGroup → Type 0
Numbers es gs =
    (chosen : List Text) × Numbered es chosen
    × Permᴰ (map number chosen) (map (λ (g : IommuGroup). g.id) gs)

some-inj {ℓ} : {A : Type ℓ} {a b : A} → some a ≡ some b → a ≡ b
some-inj e = cc e

all_digits : (s : Text) → (all is_digit s ≡ true) ↔ All IsDigit s
all_digits [] = ((λ _. tt), (λ _. refl))
all_digits (c ∷ s) =
    let (to, from) = all_digits s in
    (
      (λ e. ((ground (arith, e), ground (arith, e)), to (ground (arith, e)))),
      (λ ((lo, hi), rest). let others = from rest in ground (arith, lo, hi, others)),
    )

is_group_name_iff : (name : Text) → (is_group_name name ≡ true) ↔ Digits name
is_group_name_iff [] = ((λ e. absurd (cc e)), (λ (n, _). absurd (n refl)))
is_group_name_iff (c ∷ s) =
    let (to, from) = all_digits (c ∷ s) in ((λ e. ((λ nil. cc nil), to e)), (λ (_, ds). from ds))

stoi_lem : (name : Text) (id : ℕ) → stoi name ≡ some id → digits_from 0 name ≡ id
unfolding stoi
stoi_lem name id =
    if_both (λ (o : Option ℕ). o ≡ some id → digits_from 0 name ≡ id)
      (ltb (digits_from 0 name) (2 ^ 31)) _ _ (λ _ e. some-inj e) (λ _ e. absurd (cc e))

read_group-Of :
    (h : Host) (root base name : Text) (g : IommuGroup)
    → Digits name
    → read_group h root base name ≡ some g
    → Of h root base name g
unfolding read_group
read_group-Of h root base name g ds e = elim (Option-cases (stoi name)) [
  | inl bad ↦ absurd (cc (rw bad at e))
  | inr (id, ok) ↦
      let names = h.entries (base ++ (codes "/" ++ (name ++ codes "/devices"))) in
      let devices = map (read_device h root) names in
      let made : IommuGroup = record { id = id; devices = sort by_bdf devices } in
      let same : made ≡ g = some-inj (rw ok at e) in
      let value : id ≡ number name =
        sym (stoi_lem name id ok) ∙ digits_from-number 0 name ds.1 ∙ omega arith in
      subst (Of h root base name) same
        (value, sort-DevicesOf h root names, sort-Sorted by_bdf by_bdf-Order devices)
]

-- What one reading gives, before the groups are sorted: each group of an entry, each entry with a group.
abbrev Read : Host → Text → Text → List Text → List IommuGroup → Type 0
Read h root base names gs =
    All (λ g. Any (λ name. Digits name × Of h root base name g) names) gs
    × All (Covered h root base gs) names
    × Numbers names gs

All-map :
    {A : Type 0} {P Q : A → Type 0} (xs : List A) → ((x : A) → P x → Q x) → All P xs → All Q xs
All-map [] f h = tt
All-map (x ∷ xs) f h = (f x h.0, All-map xs f h.1)

with_group :
    (h : Host) (root base name : Text) (names : List Text) (g : IommuGroup) (gs : List IommuGroup)
    → Digits name
    → Of h root base name g
    → Read h root base names gs
    → Read h root base (name ∷ names) (g ∷ gs)
with_group h root base name names g gs ds here (from, covered, (chosen, numbered, perm)) = (
  (inl (ds, here), All-map gs (λ _ x. inr x) from),
  ((λ _. inl here), All-map names (λ n c d. inr (c d)) covered),
  (name ∷ chosen, inl (ds, (chosen, refl, numbered)), Permᴰ.cons (sym here.0) perm),
)

without_group :
    (h : Host) (root base name : Text) (names : List Text) (gs : List IommuGroup)
    → ¬ Digits name
    → Read h root base names gs
    → Read h root base (name ∷ names) gs
without_group h root base name names gs other (from, covered, (chosen, numbered, perm)) = (
  All-map gs (λ _ x. inr x) from,
  ((λ d. absurd (other d)), covered),
  (chosen, inr (other, numbered), perm),
)

read_groups-Read :
    (h : Host) (root base : Text) (names : List Text) (gs : List IommuGroup)
    → read_groups h root base names ≡ some gs
    → Read h root base names gs
unfolding read_groups
read_groups-Read h root base [] gs e =
    subst (Read h root base []) (some-inj e) (tt, tt, ([], refl, Permᴰ.nil))
read_groups-Read h root base (name ∷ names) gs made =
    let Goal : Option (List IommuGroup) → Type 0 =
      λ o. o ≡ some gs → Read h root base (name ∷ names) gs in
    if_both Goal (is_group_name name)
      (read_group h root base name >>= λ g. read_groups h root base names >>= λ gs. some (g ∷ gs))
      (read_groups h root base names)
      (λ number e.
        let (g, ok, e') = >>=-eq-some (read_group h root base name) _ e in
        let (rest, okay, e'') = >>=-eq-some (read_groups h root base names) _ e' in
        subst (Read h root base (name ∷ names)) (some-inj e'') (
          let ds = (is_group_name_iff name).0 number in
          with_group h root base name names g rest ds (read_group-Of h root base name g ds ok)
            (read_groups-Read h root base names rest okay)))
      (λ other e.
        without_group h root base name names gs
          (λ d. let number = (is_group_name_iff name).1 d in absurd (cc (number, other)))
          (read_groups-Read h root base names gs e))
      made

insert-Any :
    {A : Type 0} (lt : A → A → Bool) (P : A → Type 0) (x : A) (xs : List A)
    → Any P (x ∷ xs)
    → Any P (insert lt x xs)
unfolding insert
insert-Any lt P x [] a = a
insert-Any lt P x (y ∷ ys) a =
    if_both (λ (zs : List _). Any P zs) (lt y x) (y ∷ insert lt x ys) (x ∷ y ∷ ys)
      (λ _. moved (insert-Any lt P x ys) a) (λ _. a)
  where
    moved :
        (Any P (x ∷ ys) → Any P (insert lt x ys)) → Any P (x ∷ y ∷ ys) → Any P (y ∷ insert lt x ys)
    moved f (inl here) = inr (f (inl here))
    moved f (inr (inl there)) = inl there
    moved f (inr (inr later)) = inr (f (inr later))

sort-Any :
    {A : Type 0} (lt : A → A → Bool) (P : A → Type 0) (xs : List A) → Any P xs → Any P (sort lt xs)
unfolding sort
sort-Any lt P [] a = a
sort-Any lt P (x ∷ xs) (inl here) = insert-Any lt P x (sort lt xs) (inl here)
sort-Any lt P (x ∷ xs) (inr there) = insert-Any lt P x (sort lt xs) (inr (sort-Any lt P xs there))

-- Where the reading of the IOMMU groups gives a list, its groups are in the order of their numbers; where
-- there is no directory it is empty; else each group comes from an entry of the directory whose name is
-- its number in digits, each entry with such a name has one group, and the devices of a group are those
-- that the entry lists, none lost or added, each with the vendor, the device, the class and the driver that
-- its own directory gives, in the order of their addresses.
pub read_iommu_groups-Listed :
    (h : Host) (root : Text) (gs : List IommuGroup)
    → read_iommu_groups h root ≡ some gs
    → let base = root ++ codes "/sys/kernel/iommu_groups" in
      Sorted (λ (a b : IommuGroup). ltb a.id b.id) gs
      × (((h.is_directory base ≡ false) × (gs ≡ []))
          ⊎ ((h.is_directory base ≡ true)
              × All (Listed h root base) gs
              × All (Covered h root base gs) (h.entries base)
              × Numbers (h.entries base) gs))
unfolding read_iommu_groups
read_iommu_groups-Listed h root gs made =
    let base = root ++ codes "/sys/kernel/iommu_groups" in
    let Q : List IommuGroup → Type 0 = λ gs.
      Sorted (λ (a b : IommuGroup). ltb a.id b.id) gs
      × (((h.is_directory base ≡ false) × (gs ≡ []))
          ⊎ ((h.is_directory base ≡ true)
              × All (Listed h root base) gs
              × All (Covered h root base gs) (h.entries base)
              × Numbers (h.entries base) gs)) in
    if_both (λ (o : Option (List IommuGroup)). o ≡ some gs → Q gs) (h.is_directory base)
      (read_groups h root base (h.entries base) >>= λ gs. some (sort by_id gs)) (some [])
      (λ there e.
        let (raw, ok, e') = >>=-eq-some (read_groups h root base (h.entries base)) _ e in
        let (from, covered, (chosen, numbered, perm)) =
          read_groups-Read h root base (h.entries base) raw ok in
        subst Q (some-inj e') (
          sort-Sorted by_id by_id-Order raw,
          inr (
            there,
            sort-All by_id (Listed h root base) raw from,
            All-map (h.entries base) (λ name c d. sort-Any by_id (Of h root base name) raw (c d))
                covered,
            (
              chosen,
              numbered,
              Permᴰ.trans perm (Perm-map (λ (g : IommuGroup). g.id) (sort-Perm by_id raw)),
            ),
          ),
        ))
      (λ missing e. subst Q (some-inj e) (tt, inl (missing, refl))) made
