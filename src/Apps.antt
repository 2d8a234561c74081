-- ===== src/Apps.antt =====
-- The programs of apps/.
pub mod PingTool
