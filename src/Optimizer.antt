-- ===== src/Optimizer.antt =====
-- backend/app/optimizer.
pub mod Cp
pub mod Solver
pub mod Groups
pub mod Model
pub mod Solve
pub mod Unique
pub mod Feasible
pub mod Schedule
pub mod Separation
pub mod Clearance
pub mod Possession
pub mod Commitment
pub mod Accounting
pub mod Refusal
