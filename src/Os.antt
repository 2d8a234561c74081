-- ===== src/Os.antt =====
-- Real-time threads: include/alpha/os and src/alpha/os.
pub mod Rt
