-- ===== src/Platcheck/Checks/All.antt =====
-- platcheck/src/checks.cpp, `run_all`.
use computing_test_plat.Base.{List, [], ◌∷◌, Option, some, Text, ◌>>=◌}
use computing_test_plat.Platcheck.Host.{Host, CheckResult}
use computing_test_plat.Platcheck.Checks.{
  check_kernel, check_cpu_virt, check_kvm_device, check_kvm_module, check_nested_virt, check_iommu,
  check_vfio_modules, check_hugepages, strip_slashes,
}
use computing_test_plat.Platcheck.Checks.Gpu.{check_gpu_isolation}
use computing_test_plat.Platcheck.Checks.Confidential.{check_confidential_computing}

-- The checks of a `Checker` with its root stripped.
unfoldable pub checks_at : Host → Text → Option (List CheckResult)
unfolding check_iommu check_gpu_isolation
checks_at h root = do
  iommu ← check_iommu h root
  gpu ← check_gpu_isolation h root
  some (
      check_kernel h root
      ∷ check_cpu_virt h root
      ∷ check_kvm_device h root
      ∷ check_kvm_module h root
      ∷ check_nested_virt h root
      ∷ iommu
      ∷ check_vfio_modules h root
      ∷ check_hugepages h root
      ∷ gpu
      ∷ check_confidential_computing h root
      ∷ [])

unfoldable pub run_all : Host → Text → Option (List CheckResult)
unfolding checks_at strip_slashes
run_all h root = checks_at h (strip_slashes root)
