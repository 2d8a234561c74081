-- ===== src/Mem/PacketPool/Tests.antt =====
-- A pool of two packets.
use alpha_smart_router.Mem.PacketPool.Creation.{Made, create_lem}
use alpha_smart_router.Mem.Spsc.Threads.{Producer, Consumer, Produce, Consume}
use alpha_smart_router.Mem.PacketPool.Threads.{
  Pool, acquire_access, release_begins, Reach, here, next,
}
use alpha_smart_router.Mem.PacketPool.Threads.Places.{every, Reach-places, Reach-room}
use alpha_smart_router.Base.{
  ℕ, zero, suc, ◌+◌, ◌%◌, ◌≡◌, ◌≢◌, refl, true, none, some, List, [], ◌++◌, ◌∷◌, arith, get_elem?,
}
use mathlib.Core.List.{Nodup, Perm}
use mathlib.Core.List.Perm
use alpha_smart_router.Mem.Spsc.{SpscQueue, pop}
use alpha_smart_router.Mem.Spsc.Invariant.{Holds}
use alpha_smart_router.Mem.PacketPool.{PacketPool, Packet, default_packet, acquire, release}
use alpha_smart_router.Mem.PacketPool.Owners.{Owns, Use, release_unchecked, Use-Owns}

-- One handle is free, and a client holds the other.
abbrev ring : SpscQueue ℕ
ring = record {
  head = 1;
  tail = 2;
  buf = some 0 ∷ some 1 ∷ none ∷ none ∷ [];
  capacity = 4;
  mask = 3;
}

abbrev pool : PacketPool
pool = record { capacity = 2; storage = default_packet ∷ default_packet ∷ []; free_ring = ring }

ring-Holds : Holds ring (1 ∷ [])
ring-Holds = record {
  frame = record {
    valid = record {
      log = 2;
      power = refl;
      small = omega arith;
      masked = refl;
      stored = refl;
      head_in = omega arith;
      tail_in = omega arith;
    };
    placed = refl;
    bounded = omega arith;
  };
  cells = there;
}
  where
    there :
        (i : ℕ) (v : ℕ)
        → get_elem? (1 ∷ []) i ≡ some v
        → get_elem? ring.buf ((ring.head + i) % ring.capacity) ≡ some (some v)
    there zero v e = cc
    there (suc i) v e = cc

abbrev pool-Owns : Owns pool (0 ∷ [])
pool-Owns = record {
  free = 1 ∷ [];
  listed = ring-Holds;
  shared = Perm.swap 0 1 [];
  sized = refl;
  backed = refl;
  small = omega arith;
}

-- Handle 1 is on the free list already.
release_unchecked_example :
    (p' : PacketPool) × (release pool 1 ≡ some (true, p')) × Holds p'.free_ring (1 ∷ 1 ∷ [])
release_unchecked_example = release_unchecked pool (0 ∷ []) pool-Owns 1 (omega arith)

abbrev drained : PacketPool
drained = record pool { free_ring = record ring { head = 2 } }

takes_one : acquire pool ≡ some (some 1, drained)
unfolding acquire pop
takes_one = refl

Use-Owns_example : Owns drained (1 ∷ 0 ∷ [])
Use-Owns_example = Use-Owns (Use.take 1 takes_one) pool-Owns

abbrev packet : Packet
packet = record { length = 64; meta = 5; reserved = 0 }

create_lem_example : Made true 6
create_lem_example = create_lem true 6 (omega arith)

-- The one thread has seen that a handle is free, and the other has begun to release handle 0.
abbrev busy : Pool
busy = record {
  ring = ring;
  releasing = Producer.loaded 0 2 3;
  acquiring = Consumer.granted 1;
  freed = 1 ∷ [];
  acquired = [];
  clients = [];
}

busy-Reach : Reach ring (1 ∷ []) (0 ∷ []) busy
busy-Reach =
    next
      (next (next here (acquire_access Consume.load_head))
        (release_begins [] [] refl refl (Produce.load_tail 0) refl))
      (acquire_access (Consume.see_element (λ e. omega (arith, e))))

Reach-places_example :
    (free : List ℕ) × (busy.freed ≡ busy.acquired ++ free)
    × Perm (free ++ (0 ∷ [])) (every pool)
    × Nodup (free ++ (0 ∷ []))
Reach-places_example = Reach-places pool (0 ∷ []) pool-Owns busy-Reach

Reach-room_example : ◌≢◌ {A = ℕ} 3 1
Reach-room_example = Reach-room pool (0 ∷ []) pool-Owns busy-Reach 0 2 3 refl
