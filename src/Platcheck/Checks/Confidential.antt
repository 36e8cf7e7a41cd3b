-- ===== src/Platcheck/Checks/Confidential.antt =====
-- platcheck/src/checks.cpp, `check_confidential_computing`.
use computing_test_plat.Base.{
  [], ◌++◌, Option, none, some, Bool, false, if◌then◌else◌, Text, codes, is_empty,
}
use computing_test_plat.Platcheck.Host.{Host, pass, skip, CheckResult}
use computing_test_plat.Platcheck.Parse.{trim}
use computing_test_plat.Platcheck.Checks.{make, param_enabled}

abbrev joined : Text → Text → Text
joined found entry = (if is_empty found then found else found ++ codes ", ") ++ entry

abbrev enabled : Option Text → Bool
enabled none = false
enabled (some v) = param_enabled (trim v)

unfoldable pub probe : Host → Text → Text → Text → Text → Text
unfolding trim param_enabled
probe h root mod_name param found =
    if enabled (
      h.read_file (root ++ (codes "/sys/module/" ++ (mod_name ++ (codes "/parameters/" ++ param)))))
    then joined found (mod_name ++ (codes "." ++ param))
    else found

unfoldable pub probes : Host → Text → Text
unfolding probe
probes h root =
    let sev = probe h root (codes "kvm_amd") (codes "sev") [] in
    let sev_es = probe h root (codes "kvm_amd") (codes "sev_es") sev in
    let sev_snp = probe h root (codes "kvm_amd") (codes "sev_snp") sev_es in
    let tdx = probe h root (codes "kvm_intel") (codes "tdx") sev_snp in
    if h.exists (root ++ codes "/dev/sev") then joined tdx (codes "/dev/sev") else tdx

unfoldable pub check_confidential_computing : Host → Text → CheckResult
unfolding probes make
check_confidential_computing h root =
    let found = probes h root in
    if is_empty found
    then make (codes "confidential_computing") (codes "Confidential computing support (SEV/TDX)")
        skip (codes "no SEV/SEV-ES/SEV-SNP/TDX indicators exposed by this kernel or CPU") []
    else make (codes "confidential_computing") (codes "Confidential computing support (SEV/TDX)")
        pass (codes "detected: " ++ found) []
