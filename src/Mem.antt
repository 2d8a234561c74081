-- ===== src/Mem.antt =====
-- The memory layer: include/alpha/mem and src/alpha/mem.
pub mod Fifo
pub mod Spsc
pub mod PacketPool
