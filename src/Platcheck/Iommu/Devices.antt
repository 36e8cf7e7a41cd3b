-- ===== src/Platcheck/Iommu/Devices.antt =====
-- platcheck/src/checks.cpp, `read_iommu_groups`: the number in the name of a group, and what is read for
-- each device.
use computing_test_plat.Base.{
  ℕ, suc, ◌+◌, ◌*◌, ◌-◌, ◌^◌, ◌≤◌, ◌≡◌, ◌⊎◌, refl, ap, ◌∙◌, List, [], ◌∷◌, ◌++◌, none, some, Text,
  codes, map, length, All, inl, inr, true, arith, subst, Option-cases,
}
use native.Mathlib.Numerals.{unary_clauses}
use mathlib.Core.List.{Permᴰ}
use computing_test_plat.Base.Ascii.{digits_from, is_digit}
use computing_test_plat.Platcheck.Host.{Host}
use computing_test_plat.Platcheck.Parse.{trim, to_lower}
use computing_test_plat.Platcheck.Iommu.{IommuDevice, read_device, read_trimmed, sort, by_bdf}
use computing_test_plat.Platcheck.Iommu.Sorted.{sort-Perm, sort-All}

-- The number that digits stand for, each by its place.
pub number : Text → ℕ
number [] = 0
number (c ∷ s) = (c - 48) * 10 ^ length s + number s

abbrev pub IsDigit : ℕ → Type 0
IsDigit c = (48 ≤ c) × (c ≤ 57)

shift : (a d k n : ℕ) → (a * 10 + d) * 10 ^ k + n ≡ a * 10 ^ suc k + (d * 10 ^ k + n)
shift a d k n = simp unary_clauses (omega arith)

pub digits_from-number :
    (acc : ℕ) (s : Text) → All IsDigit s → digits_from acc s ≡ acc * 10 ^ length s + number s
unfolding digits_from number
digits_from-number acc [] ds = omega arith
digits_from-number acc (c ∷ s) ((lo, hi), ds) =
    let digit : is_digit c ≡ true = ground (arith, lo, hi) in
    rw digit
      (digits_from-number (acc * 10 + (c - 48)) s ds ∙ shift acc (c - 48) (length s) (number s))

-- The content of a file without the white space around it, in lower case; nothing where it cannot be read.
abbrev pub Content : Host → Text → Text → Type 0
Content h path text =
    ((h.read_file path ≡ none) × (text ≡ []))
    ⊎ ((c : Text) × (h.read_file path ≡ some c) × (text ≡ to_lower (trim c)))

-- Where a symbolic link points to; nothing where there is none.
abbrev pub Target : Host → Text → Text → Type 0
Target h path text =
    ((h.read_symlink path ≡ none) × (text ≡ [])) ⊎ (h.read_symlink path ≡ some text)

-- What is said of a device is read from its own directory.
abbrev pub DeviceAt : Host → Text → IommuDevice → Type 0
DeviceAt h root dev =
    let pci = root ++ (codes "/sys/bus/pci/devices/" ++ dev.bdf) in
    Content h (pci ++ codes "/vendor") dev.vendor
    × Content h (pci ++ codes "/device") dev.device
    × Content h (pci ++ codes "/class") dev.cls
    × Target h (pci ++ codes "/driver") dev.driver

read_trimmed-Content : (h : Host) (path : Text) → Content h path (to_lower (read_trimmed h path))
unfolding read_trimmed to_lower
read_trimmed-Content h path = elim (Option-cases (h.read_file path)) [
  | inl bad ↦ inl (bad, rw (read_trimmed, bad) refl)
  | inr (c, ok) ↦ inr (c, ok, rw (read_trimmed, ok) refl)
]

read_device-DeviceAt : (h : Host) (root bdf : Text) → DeviceAt h root (read_device h root bdf)
unfolding read_device
read_device-DeviceAt h root bdf =
    let pci = root ++ (codes "/sys/bus/pci/devices/" ++ bdf) in
    (
      read_trimmed-Content h (pci ++ codes "/vendor"),
      read_trimmed-Content h (pci ++ codes "/device"),
      read_trimmed-Content h (pci ++ codes "/class"),
      elim (Option-cases (h.read_symlink (pci ++ codes "/driver"))) [
        | inl bad ↦ inl (bad, rw bad refl)
        | inr (t, ok) ↦ inr (ok ∙ rw ok refl)
      ],
    )

map-DeviceAt :
    (h : Host) (root : Text) (names : List Text)
    → All (DeviceAt h root) (map (read_device h root) names)
map-DeviceAt h root [] = tt
map-DeviceAt h root (n ∷ names) = (read_device-DeviceAt h root n, map-DeviceAt h root names)

pub Perm-map :
    {A B : Type 0} (f : A → B) {xs ys : List A} → Permᴰ xs ys → Permᴰ (map f xs) (map f ys)
Perm-map f Permᴰ.nil = Permᴰ.nil
Perm-map f (Permᴰ.cons e d) = Permᴰ.cons (ap f e) (Perm-map f d)
Perm-map f (Permᴰ.swap e₁ e₂) = Permᴰ.swap (ap f e₁) (ap f e₂)
Perm-map f (Permᴰ.trans d₁ d₂) = Permᴰ.trans (Perm-map f d₁) (Perm-map f d₂)

addresses :
    (h : Host) (root : Text) (names : List Text)
    → map (λ (d : IommuDevice). d.bdf) (map (read_device h root) names) ≡ names
unfolding read_device
addresses h root [] = refl
addresses h root (n ∷ names) = ap (λ ns. n ∷ ns) (addresses h root names)

-- The devices are those of the names, each once, with what is read for them.
abbrev pub DevicesOf : Host → Text → List Text → List IommuDevice → Type 0
DevicesOf h root names devices =
    Permᴰ names (map (λ (d : IommuDevice). d.bdf) devices) × All (DeviceAt h root) devices

pub sort-DevicesOf :
    (h : Host) (root : Text) (names : List Text)
    → DevicesOf h root names (sort by_bdf (map (read_device h root) names))
sort-DevicesOf h root names =
    let devices = map (read_device h root) names in
    (
      subst (λ ns. Permᴰ ns (map (λ (d : IommuDevice). d.bdf) (sort by_bdf devices)))
          (addresses h root names) (Perm-map (λ d. d.bdf) (sort-Perm by_bdf devices)),
      sort-All by_bdf (DeviceAt h root) devices (map-DeviceAt h root names),
    )
