-- ===== src/Obs.antt =====
-- Observability: include/alpha/obs and src/alpha/obs.
pub mod Observer
