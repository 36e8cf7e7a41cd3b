-- ===== src/Kmod.antt =====
-- The kernel module, kmod/.
pub mod Valdev
