-- ===== src/Platcheck/Checks/Gpu.antt =====
-- platcheck/src/checks.cpp, `check_gpu_isolation`.
pub mod Isolation
use computing_test_plat.Base.{
  ℕ, zero, suc, ◌+◌, ◌≡◌, refl, List, [], ◌∷◌, ◌++◌, Option, none, some, Bool, true, false, ◌&&◌,
  ◌||◌, not, ltb, ◌==◌, if◌then◌else◌, Text, codes, is_empty, text_eq, map, any, ◌>>=◌, arith,
}
use computing_test_plat.Base.Ascii.{decimal}
use computing_test_plat.Platcheck.Host.{Host, Status, pass, warn, fail, skip, CheckResult}
use computing_test_plat.Platcheck.Iommu.{
  IommuDevice, IommuGroup, read_iommu_groups, is_display_class, is_bridge_class, is_audio_class,
  is_nvidia,
}
use computing_test_plat.Platcheck.Checks.{make}

-- What the loop over the devices has found so far.
pub record Found : Type 0 where
  pub worst : Status
  pub detail : Text
  pub gpus : ℕ

abbrev pub rank : Status → ℕ
rank fail = 3
rank warn = 2
rank pass = 1
rank skip = 0

unfoldable pub bump : Status → Status → Status
bump worst s = if ltb (rank worst) (rank s) then s else worst

unfoldable pub is_gpu : IommuDevice → Bool
unfolding is_nvidia is_display_class
is_gpu dev = is_nvidia dev && is_display_class dev.cls

-- Another device of the group that is neither a bridge nor an NVIDIA audio function.
unfoldable pub is_other : IommuDevice → IommuDevice → Bool
unfolding is_nvidia is_bridge_class is_audio_class text_eq
is_other dev o =
    not (text_eq o.bdf dev.bdf)
    && not (is_bridge_class o.cls)
    && not (is_nvidia o && is_audio_class o.cls)

unfoldable pub others : IommuDevice → List IommuDevice → List Text
unfolding is_other
others dev [] = []
others dev (o ∷ os) = let rest = others dev os in if is_other dev o then o.bdf ∷ rest else rest

abbrev pub listed : List Text → Text
listed [] = []
listed (b ∷ bs) = codes " " ++ (b ++ listed bs)

abbrev driver_or_none : Text → Text
driver_or_none d = if is_empty d then codes "none" else d

abbrev pub described : Text → ℕ → IommuDevice → Text
described detail group dev =
    (if is_empty detail then detail else detail ++ codes "; ")
    ++ (dev.bdf
        ++ (codes " (group "
            ++ (decimal group ++ (codes ", driver " ++ (driver_or_none dev.driver ++ codes ")")))))

abbrev pub judged : Found → ℕ → IommuDevice → List Text → Found
judged f group dev [] = record {
  worst = bump f.worst pass;
  detail = described f.detail group dev;
  gpus = f.gpus + 1;
}
judged f group dev (b ∷ bs) = record {
  worst = bump f.worst warn;
  detail = described f.detail group dev ++ (codes " shares its group with:" ++ listed (b ∷ bs));
  gpus = f.gpus + 1;
}

-- The body of the inner loop.
unfoldable pub visit : IommuGroup → Found → IommuDevice → Found
unfolding is_gpu others bump decimal
visit g f dev =
    if not (is_nvidia dev) || not (is_display_class dev.cls)
    then f
    else judged f g.id dev (others dev g.devices)

unfoldable pub visit_all : IommuGroup → Found → List IommuDevice → Found
unfolding visit
visit_all g f [] = f
visit_all g f (dev ∷ devs) = visit_all g (visit g f dev) devs

unfoldable pub survey : Found → List IommuGroup → Found
unfolding visit_all
survey f [] = f
survey f (g ∷ gs) = survey (visit_all g f g.devices) gs

abbrev pub nothing_found : Found
nothing_found = record { worst = skip; detail = []; gpus = 0 }

abbrev is_warn : Status → Bool
is_warn warn = true
is_warn _ = false

-- The result for the groups of the host.
unfoldable pub isolation : List IommuGroup → CheckResult
unfolding survey make
isolation groups =
    let f = survey nothing_found groups in
    if f.gpus == 0
    then make (codes "gpu_isolation") (codes "NVIDIA GPU IOMMU isolation") skip
        (codes "no NVIDIA display device found in any IOMMU group") []
    else make (codes "gpu_isolation") (codes "NVIDIA GPU IOMMU isolation") f.worst f.detail (
        if is_warn f.worst
        then codes
            "Endpoints sharing an IOMMU group must be passed through together. Try another slot or a platform with ACS support."
        else [])

unfoldable pub check_gpu_isolation : Host → Text → Option CheckResult
unfolding isolation read_iommu_groups
check_gpu_isolation h root = do groups ← read_iommu_groups h root; some (isolation groups)
