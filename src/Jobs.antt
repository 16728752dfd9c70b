-- ===== src/Jobs.antt =====
-- backend/app/jobs.
pub mod State
pub mod Values
pub mod Events
pub mod Guards
pub mod Validation
pub mod Store
pub mod Accepted
pub mod Rows
pub mod Protection
pub mod Tokens
pub mod Gates
pub mod Steps
pub mod Effects
pub mod Absent
pub mod History
pub mod Reachable
pub mod Commitments
pub mod Execution
pub mod Plans
pub mod SlaPolicy
pub mod Obligations
