-- ===== src/Examples.antt =====
-- Concrete requests, jobs and stores, and the theorems applied to them.
pub mod Checker
pub mod Requests
pub mod Schedules
pub mod Recoveries
pub mod Stores
pub mod Decisions
pub mod Platforms
pub mod Fieldwork
pub mod Outcomes
pub mod Clocks
pub mod Duties
pub mod Failures
