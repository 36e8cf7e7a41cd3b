-- ===== src/Platcheck/Checks.antt =====
-- platcheck/src/checks.cpp, the checks of `Checker` but GPU isolation and confidential computing.
pub mod Gpu
pub mod Confidential
pub mod All
use computing_test_plat.Base.{
  ℕ, ◌+◌, List, [], ◌∷◌, ◌++◌, Option, none, some, Bool, true, false, ◌&&◌, ◌||◌, not, ltb, ◌==◌,
  if◌then◌else◌, Text, codes, is_empty, text_eq, length, ◌>>=◌,
}
use computing_test_plat.Base.Int.{ℤ, pos, negsuc}
use computing_test_plat.Base.Ascii.{decimal}
use computing_test_plat.Platcheck.Host.{Host, Status, pass, warn, fail, skip, CheckResult}
use computing_test_plat.Platcheck.Parse.{
  trim, cpuinfo_has_flags_line, cpu_has_flag, meminfo_value, cmdline_has, cmdline_value,
}
use computing_test_plat.Platcheck.Iommu.{IommuGroup, read_trimmed, read_iommu_groups}

unfoldable pub make : Text → Text → Status → Text → Text → CheckResult
make id title status detail remediation = record {
  id = id;
  title = title;
  status = status;
  detail = detail;
  remediation = remediation;
}

unfoldable pub param_enabled : Text → Bool
unfolding text_eq
param_enabled v = text_eq v (codes "Y") || text_eq v (codes "y") || text_eq v (codes "1")

unfoldable pub strip_slashes : Text → Text
strip_slashes [] = []
strip_slashes (c ∷ s) =
    let rest = strip_slashes s in if is_empty rest && c == 47 then [] else c ∷ rest

module _ (h : Host) (root : Text) where
  unfoldable pub check_kernel : CheckResult
  unfolding make trim
  check_kernel = elim (h.read_file (root ++ codes "/proc/sys/kernel/osrelease")) [
    | none ↦ make (codes "kernel") (codes "Kernel version") skip (codes "osrelease not readable") []
    | some rel ↦ make (codes "kernel") (codes "Kernel version") pass (trim rel) []
  ]

  abbrev cpu_result : Status → Text → Text → CheckResult
  cpu_result = make (codes "cpu_virt") (codes "CPU virtualization extensions")

  abbrev judge_cpu : Text → CheckResult
  judge_cpu info =
      if cpuinfo_has_flags_line info
      then (if cpu_has_flag info (codes "vmx")
          then cpu_result pass (codes "Intel VT-x (vmx) present") []
          else if cpu_has_flag info (codes "svm")
          then cpu_result pass (codes "AMD-V (svm) present") []
          else cpu_result fail (codes "neither vmx nor svm present in cpu flags") (
              codes
                "Enable VT-x/AMD-V in firmware; if this is a VM, enable nested virtualization on the parent hypervisor."))
      else cpu_result skip (codes "no x86 'flags' line (non-x86 host?); rely on the /dev/kvm check")
          []

  unfoldable pub check_cpu_virt : CheckResult
  unfolding make cpuinfo_has_flags_line cpu_has_flag
  check_cpu_virt = elim (h.read_file (root ++ codes "/proc/cpuinfo")) [
    | none ↦ cpu_result skip (codes "/proc/cpuinfo not readable") []
    | some info ↦ judge_cpu info
  ]

  abbrev kvm_result : Status → Text → Text → CheckResult
  kvm_result = make (codes "kvm_device") (codes "/dev/kvm accessible")

  unfoldable pub check_kvm_device : CheckResult
  unfolding make
  check_kvm_device =
      let dev = root ++ codes "/dev/kvm" in
      if not (h.exists dev)
      then kvm_result fail (codes "/dev/kvm does not exist")
          (codes "Load the kvm module (modprobe kvm_intel / kvm_amd) and check firmware settings.")
      else if not (h.read_write dev)
      then kvm_result warn (codes "/dev/kvm exists but is not read/write for this user")
          (codes "Add your user to the 'kvm' group, or run as a user that can open /dev/kvm.")
      else kvm_result pass (codes "/dev/kvm is present and read/write") []

  abbrev module_result : Status → Text → Text → CheckResult
  module_result = make (codes "kvm_module") (codes "KVM kernel module")

  unfoldable pub check_kvm_module : CheckResult
  unfolding make
  check_kvm_module =
      if h.exists (root ++ codes "/sys/module/kvm_intel")
      then module_result pass (codes "kvm_intel loaded") []
      else if h.exists (root ++ codes "/sys/module/kvm_amd")
      then module_result pass (codes "kvm_amd loaded") []
      else if h.exists (root ++ codes "/sys/module/kvm")
      then module_result pass (codes "kvm loaded (no vendor module; e.g. arm64)") []
      else module_result fail (codes "no kvm module loaded")
          (codes "modprobe kvm_intel or kvm_amd (check dmesg for why it failed to load).")

  abbrev nested_result : Status → Text → Text → CheckResult
  nested_result = make (codes "nested_virt") (codes "Nested virtualization")

  abbrev judge_nested : Text → Text → CheckResult
  judge_nested mod_name val =
      let d = mod_name ++ (codes ".nested = " ++ val) in
      if param_enabled val
      then nested_result pass d []
      else nested_result warn d (
          codes "Reload with 'options "
          ++ (mod_name ++ codes " nested=1' in /etc/modprobe.d/ if you need VMs inside VMs."))

  abbrev nested_of : List Text → CheckResult
  nested_of [] =
      nested_result skip (codes "no nested parameter exposed by the loaded kvm module") []
  nested_of (m ∷ ms) =
      elim (h.read_file (root ++ (codes "/sys/module/" ++ (m ++ codes "/parameters/nested")))) [
        | none ↦ nested_of ms
        | some v ↦ judge_nested m (trim v)
      ]

  unfoldable pub check_nested_virt : CheckResult
  unfolding make trim param_enabled
  check_nested_virt = nested_of (codes "kvm_intel" ∷ codes "kvm_amd" ∷ [])

  abbrev iommu_result : Status → Text → Text → CheckResult
  iommu_result = make (codes "iommu") (codes "IOMMU enabled")

  abbrev iommu_option : Option Text → Text
  iommu_option none = []
  iommu_option (some pt) = codes ", iommu=" ++ pt

  abbrev judge_iommu : List IommuGroup → Text → CheckResult
  judge_iommu [] cmdline =
      iommu_result fail
        (codes "no IOMMU groups found"
          ++ (if not (cmdline_has cmdline (codes "intel_iommu"))
                && not (cmdline_has cmdline (codes "amd_iommu"))
              then codes "; kernel cmdline has no intel_iommu/amd_iommu option"
              else []))
        (codes
          "Enable VT-d/AMD-Vi in firmware and boot with intel_iommu=on (or amd_iommu=on) and optionally iommu=pt.")
  judge_iommu (g ∷ gs) cmdline =
      iommu_result pass
        (decimal (length (g ∷ gs))
          ++ (codes " IOMMU groups" ++ iommu_option (cmdline_value cmdline (codes "iommu"))))
        []

  unfoldable pub check_iommu : Option CheckResult
  unfolding make read_iommu_groups read_trimmed cmdline_has cmdline_value decimal
  check_iommu = do
    groups ← read_iommu_groups h root
    some (judge_iommu groups (read_trimmed h (root ++ codes "/proc/cmdline")))

  abbrev y_or_n : Bool → Text
  y_or_n b = if b then codes "y" else codes "n"

  abbrev judge_vfio : Bool → Bool → Bool → CheckResult
  judge_vfio vfio pci type1 =
      let d =
        codes "vfio="
        ++ (y_or_n vfio
            ++ (codes " vfio_pci="
                ++ (y_or_n pci ++ (codes " vfio_iommu_type1=" ++ y_or_n type1)))) in
      if vfio && pci && type1
      then make (codes "vfio") (codes "VFIO modules") pass d []
      else make (codes "vfio") (codes "VFIO modules") warn d
          (codes "modprobe vfio-pci (only needed for PCI device passthrough).")

  unfoldable pub check_vfio_modules : CheckResult
  unfolding make
  check_vfio_modules =
      judge_vfio (h.exists (root ++ codes "/sys/module/vfio"))
        (h.exists (root ++ codes "/sys/module/vfio_pci"))
        (h.exists (root ++ codes "/sys/module/vfio_iommu_type1"))

  abbrev pages_result : Status → Text → Text → CheckResult
  pages_result = make (codes "hugepages") (codes "Hugepages reserved")

  -- `std::to_string(long)`.
  abbrev signed_decimal : ℤ → Text
  signed_decimal (pos n) = decimal n
  signed_decimal (negsuc n) = 45 ∷ decimal (n + 1)

  abbrev size_detail : Option ℤ → Text
  size_detail none = []
  size_detail (some size) = codes ", Hugepagesize=" ++ (signed_decimal size ++ codes " kB")

  abbrev is_positive : ℤ → Bool
  is_positive (pos n) = ltb 0 n
  is_positive (negsuc n) = false

  abbrev judge_pages : Option ℤ → Option ℤ → CheckResult
  judge_pages none size = pages_result skip (codes "HugePages_Total not reported") []
  judge_pages (some total) size =
      let d = codes "HugePages_Total=" ++ (signed_decimal total ++ size_detail size) in
      if is_positive total
      then pages_result pass d []
      else pages_result warn d
          (codes "Reserve hugepages (vm.nr_hugepages) for lower-jitter, higher-throughput guests.")

  unfoldable pub check_hugepages : CheckResult
  unfolding make meminfo_value decimal
  check_hugepages = elim (h.read_file (root ++ codes "/proc/meminfo")) [
    | none ↦ pages_result skip (codes "/proc/meminfo not readable") []
    | some info ↦
        judge_pages (meminfo_value info (codes "HugePages_Total"))
          (meminfo_value info (codes "Hugepagesize"))
  ]
