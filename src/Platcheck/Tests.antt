-- ===== src/Platcheck/Tests.antt =====
-- platcheck/ at small inputs.
use computing_test_plat.Base.{
  ltb, ◌≡◌, refl, List, [], ◌∷◌, ◌++◌, none, some, true, false, Text, codes, All, text_eq,
  starts_with, contains_byte, arith, if◌then◌else◌, ◌↔◌, ◌⊎◌,
}
use computing_test_plat.Base.Int.{pos}
use computing_test_plat.Base.Ascii.{decimal}
use computing_test_plat.Platcheck.Host.{Host, Status, pass, warn, fail, skip, CheckResult}
use computing_test_plat.Platcheck.Parse.{meminfo_value, cpu_has_flag}
use computing_test_plat.Platcheck.Parse.Words.{IsToken, join_spaces, unlines}
use computing_test_plat.Platcheck.Parse.Laws.{meminfo_value-decimal, cpu_has_flag-tokens}
use computing_test_plat.Platcheck.Iommu.{IommuDevice, IommuGroup, read_iommu_groups}
use computing_test_plat.Platcheck.Iommu.Sorted.{Sorted}
use computing_test_plat.Platcheck.Iommu.Groups.{read_iommu_groups-Listed, Listed, Covered, Numbers}
use computing_test_plat.Platcheck.Checks.Gpu.{isolation}
use computing_test_plat.Platcheck.Checks.Gpu.Isolation.{isolation-status, HasGpu, HasSharing}
use computing_test_plat.Platcheck.Render.{json_escape}
use computing_test_plat.Platcheck.Render.Json.{json_decode, plain, json_decode-json_escape}

-- A quote, a newline and a control character.
abbrev awkward : Text
awkward = 34 ∷ 10 ∷ 1 ∷ 65 ∷ []

json_decode-json_escape_example : json_decode plain (json_escape awkward) ≡ some awkward
json_decode-json_escape_example =
    json_decode-json_escape awkward (omega arith, (omega arith, (omega arith, (omega arith, tt))))

abbrev result : Status → CheckResult
result s = record { id = []; title = []; status = s; detail = []; remediation = [] }

abbrev results : List CheckResult
results = result pass ∷ result fail ∷ result skip ∷ []

abbrev gpu : IommuDevice
gpu = record {
  bdf = codes "0000:01:00.0";
  vendor = codes "0x10de";
  device = codes "0x2684";
  cls = codes "0x030000";
  driver = codes "vfio-pci";
}

abbrev nic : IommuDevice
nic = record {
  bdf = codes "0000:02:00.0";
  vendor = codes "0x8086";
  device = codes "0x1572";
  cls = codes "0x020000";
  driver = [];
}

abbrev crowded : List IommuGroup
crowded = record { id = 7; devices = gpu ∷ nic ∷ [] } ∷ []

isolation-status_example :
    (((isolation crowded).status ≡ skip) ↔ (¬ HasGpu crowded))
    × (((isolation crowded).status ≡ warn) ↔ HasSharing crowded)
    × (((isolation crowded).status ≡ pass) ↔ (HasGpu crowded × (¬ HasSharing crowded)))
isolation-status_example = isolation-status crowded

abbrev tokens : List Text
tokens = codes "fpu" ∷ codes "vmx" ∷ []

tokens-IsToken : All IsToken tokens
tokens-IsToken = (
  ((λ e. absurd (cc e)), (refl, (refl, (refl, tt)))),
  (((λ e. absurd (cc e)), (refl, (refl, (refl, tt)))), tt),
)

meminfo_value-decimal_example :
    meminfo_value
      (unlines (
        codes "A: 1"
        ∷ ((codes "H" ++ codes ":") ++ (codes "  " ++ (decimal 12 ++ codes " kB")))
        ∷ []))
      (codes "H")
    ≡ some (pos 12)
unfolding decimal starts_with
meminfo_value-decimal_example =
    meminfo_value-decimal (codes "A: 1" ∷ []) [] (codes "H") (codes "  ") (codes " kB") 12
      (
        (refl, (refl, (refl, (refl, tt)))),
        ((refl, (refl, (refl, (refl, (refl, (refl, (refl, (refl, (refl, tt))))))))), tt),
      )
      (refl, tt) (refl, (refl, tt)) refl (omega arith)

cpu_has_flag-tokens_example :
    cpu_has_flag
      (unlines (codes "x" ∷ (codes "flags" ++ (codes " " ++ (58 ∷ join_spaces tokens))) ∷ []))
      (codes "vmx")
    ≡ true
unfolding starts_with contains_byte text_eq
cpu_has_flag-tokens_example =
    cpu_has_flag-tokens (codes "x" ∷ []) [] (codes " ") (codes "vmx") tokens
      (
        (refl, tt),
        (
          (
            refl,
            (
              refl,
              (
                refl,
                (
                  refl,
                  (
                    refl,
                    (
                      refl,
                      (refl, (refl, (refl, (refl, (refl, (refl, (refl, (refl, (refl, tt))))))))),
                    ),
                  ),
                ),
              ),
            ),
          ),
          tt,
        ),
      )
      (refl, tt) refl tokens-IsToken

-- A host with two groups, the names in no order.
abbrev host : Host
host = record {
  read_file = λ p. none;
  exists = λ p. false;
  read_write = λ p. false;
  is_directory = λ p. true;
  entries = λ p.
      if starts_with p (codes "/sys/kernel/iommu_groups/")
      then []
      else codes "10" ∷ codes "x" ∷ codes "2" ∷ [];
  read_symlink = λ p. none;
}

abbrev two_groups : List IommuGroup
two_groups = record { id = 2; devices = [] } ∷ record { id = 10; devices = [] } ∷ []

two_read : read_iommu_groups host [] ≡ some two_groups
unfolding read_iommu_groups starts_with
two_read = refl

abbrev base : Text
base = [] ++ codes "/sys/kernel/iommu_groups"

read_iommu_groups-Listed_example :
    Sorted (λ (a b : IommuGroup). ltb a.id b.id) two_groups
    × (((host.is_directory base ≡ false) × (two_groups ≡ []))
        ⊎ ((host.is_directory base ≡ true)
            × All (Listed host [] base) two_groups
            × All (Covered host [] base two_groups) (host.entries base)
            × Numbers (host.entries base) two_groups))
read_iommu_groups-Listed_example = read_iommu_groups-Listed host [] two_groups two_read
