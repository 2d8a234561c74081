-- ===== src/Mem/PacketPool/Packets.antt =====
-- The descriptors of a `PacketPool`, reached through handles.
use alpha_smart_router.Mem.PacketPool.{PacketPool}
