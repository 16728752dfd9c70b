-- ===== src/Data.antt =====
-- backend/app/data.
pub mod HorizonAnchor
