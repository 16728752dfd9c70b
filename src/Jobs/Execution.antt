-- ===== src/Jobs/Execution.antt =====
-- backend/app/jobs/execution.py.
pub mod Ids
pub mod Time
pub mod Platform
pub mod Evidence
pub mod Normal
pub mod Minutes
pub mod Sets
pub mod Records
pub mod Reading
pub mod Coherent
