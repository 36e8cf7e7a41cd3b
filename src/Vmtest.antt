-- ===== src/Vmtest.antt =====
-- vmtest/: the VM test harness.
pub mod Util
pub mod Config
pub mod Junit
pub mod Machine
pub mod Virt
pub mod GuestExec
pub mod Context
pub mod Cases
pub mod Runner
mod Tests
