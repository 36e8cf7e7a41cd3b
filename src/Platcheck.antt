-- ===== src/Platcheck.antt =====
-- platcheck/: host readiness checks.
pub mod Host
pub mod Parse
pub mod Iommu
pub mod Checks
pub mod Render
mod Tests
