-- ===== src/Dtest.antt =====
-- The distributed test runner, dtest/.
pub mod Types
pub mod Policy
pub mod Rpc
pub mod Agent
pub mod Process
pub mod Executor
pub mod Json
pub mod Jobs
pub mod Labels
pub mod Summary
pub mod Scheduler
pub mod Report
pub mod Programs
mod Tests
