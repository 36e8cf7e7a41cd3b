-- ===== src/Platcheck/Iommu.antt =====
-- platcheck/src/checks.cpp, `read_iommu_groups` and the PCI class helpers. A group name that does not
-- fit `int` makes `std::stoi` throw: the reading gives none then.
pub mod Sorted
pub mod Devices
pub mod Groups
use computing_test_plat.Base.{
  ℕ, ◌+◌, ◌^◌, List, [], ◌∷◌, ◌++◌, Option, none, some, Bool, true, false, ◌&&◌, not, ltb, ◌==◌,
  if◌then◌else◌, Text, codes, is_empty, text_eq, starts_with, map, all, ◌>>=◌, ◌||◌, text_ltb,
}
use computing_test_plat.Base.Ascii.{is_digit, digits_from}
use computing_test_plat.Platcheck.Host.{Host}
use computing_test_plat.Platcheck.Parse.{trim, to_lower}

pub record IommuDevice : Type 0 where
  pub bdf : Text
  pub vendor : Text
  pub device : Text
  pub cls : Text
  pub driver : Text

pub record IommuGroup : Type 0 where
  pub id : ℕ
  pub devices : List IommuDevice

module _ {ℓ} {A : Type ℓ} where
  unfoldable pub insert : (A → A → Bool) → A → List A → List A
  insert lt x [] = x ∷ []
  insert lt x (y ∷ ys) = let rest = insert lt x ys in if lt y x then y ∷ rest else x ∷ (y ∷ ys)

  -- `std::sort`, for an order.
  unfoldable pub sort : (A → A → Bool) → List A → List A
  unfolding insert
  sort lt [] = []
  sort lt (x ∷ xs) = insert lt x (sort lt xs)

unfoldable pub read_trimmed : Host → Text → Text
unfolding trim
read_trimmed h path = elim (h.read_file path) [ none ↦ [] | some c ↦ trim c ]

abbrev or_empty : Option Text → Text
or_empty none = []
or_empty (some s) = s

unfoldable pub read_device : Host → Text → Text → IommuDevice
unfolding read_trimmed to_lower
read_device h root bdf =
    let pci = root ++ (codes "/sys/bus/pci/devices/" ++ bdf) in
    record {
      bdf = bdf;
      vendor = to_lower (read_trimmed h (pci ++ codes "/vendor"));
      device = to_lower (read_trimmed h (pci ++ codes "/device"));
      cls = to_lower (read_trimmed h (pci ++ codes "/class"));
      driver = or_empty (h.read_symlink (pci ++ codes "/driver"));
    }

abbrev pub by_bdf : IommuDevice → IommuDevice → Bool
by_bdf a b = text_ltb a.bdf b.bdf

abbrev pub by_id : IommuGroup → IommuGroup → Bool
by_id a b = ltb a.id b.id

abbrev pub is_group_name : Text → Bool
is_group_name name = not (is_empty name) && all is_digit name

-- `std::stoi` of digits.
unfoldable pub stoi : Text → Option ℕ
unfolding digits_from
stoi name = if ltb (digits_from 0 name) (2 ^ 31) then some (digits_from 0 name) else none

unfoldable pub read_group : Host → Text → Text → Text → Option IommuGroup
unfolding stoi read_device sort text_ltb
read_group h root base name = do
  id ← stoi name
  some (record {
    id = id;
    devices =
        sort by_bdf (
          map (read_device h root) (h.entries (base ++ (codes "/" ++ (name ++ codes "/devices")))));
  })

unfoldable pub read_groups : Host → Text → Text → List Text → Option (List IommuGroup)
unfolding read_group
read_groups h root base [] = some []
read_groups h root base (name ∷ names) =
    let rest = read_groups h root base names in
    if is_group_name name
    then (read_group h root base name >>= λ g. rest >>= λ gs. some (g ∷ gs))
    else rest

unfoldable pub read_iommu_groups : Host → Text → Option (List IommuGroup)
unfolding read_groups sort
read_iommu_groups h root =
    let base = root ++ codes "/sys/kernel/iommu_groups" in
    if h.is_directory base
    then (read_groups h root base (h.entries base) >>= λ gs. some (sort by_id gs))
    else some []

unfoldable pub is_display_class : Text → Bool
unfolding starts_with
is_display_class c = starts_with c (codes "0x03")

unfoldable pub is_bridge_class : Text → Bool
unfolding starts_with
is_bridge_class c = starts_with c (codes "0x06")

unfoldable pub is_audio_class : Text → Bool
unfolding starts_with
is_audio_class c = starts_with c (codes "0x0403")

unfoldable pub is_nvidia : IommuDevice → Bool
unfolding text_eq
is_nvidia d = text_eq d.vendor (codes "0x10de")
