-- ===== src/Mem/PacketPool.antt =====
-- `PacketPool` of src/alpha/mem/packet_pool.cpp over the `Packet` of include/alpha/mem/packet.hpp.
-- A result `none` of the constructor is `std::abort` or a failed assertion; of another operation it
-- is undefined behaviour, as for `SpscQueue`.
pub mod Create
pub mod Owners
pub mod Packets
pub mod Creation
pub mod Threads
mod Tests
use alpha_smart_router.Base.{
  ℕ, zero, suc, ◌+◌, ◌*◌, ◌%◌, ◌^◌, Bool, true, false, Option, none, some, List, ltb, if◌then◌else◌,
  replicate, get_elem?, set,
}
use mathlib.Core.Option
use alpha_smart_router.Mem.Spsc.{
  SpscQueue, ElementTraits, Expected, value, unexpected, with_capacity, size_mod, push, pop,
}

pub record Packet : Type 0 where
  pub length : ℕ  -- std::size_t
  pub meta : ℕ  -- std::uint32_t
  pub reserved : ℕ  -- std::uint32_t

abbrev pub default_packet : Packet
default_packet = record { length = 0; meta = 0; reserved = 0 }

-- `static_cast<PacketHandle>(i)`
abbrev pub packet_handle : ℕ → ℕ
packet_handle i = i % 2 ^ 32

-- A `PacketHandle` is a `std::uint32_t`, and a move of one leaves it as it is.
abbrev pub handle_traits : ElementTraits
handle_traits = record { trivially_copyable = true; nothrow_move_constructible = true; size = 4 }

abbrev pub copied : ℕ → ℕ
copied h = h

pub record PacketPool : Type 0 where
  pub capacity : ℕ
  pub storage : List Packet
  pub free_ring : SpscQueue ℕ

-- The loop that seeds the free list, with `rounds` handles from `i` on left to push.
pub seed : (rounds i : ℕ) → SpscQueue ℕ → Option (SpscQueue ℕ)
seed zero i ring = some ring
seed (suc rounds) i ring = elim (push ring (packet_handle i)) [
  | none ↦ none
  | some (done, ring') ↦ let rest = seed rounds (suc i) ring' in if done then rest else none
]

-- `PacketPool(capacity_pow2)`; `allocated` is for the storage of the ring.
pub create : (allocated : Bool) → ℕ → Option PacketPool
unfolding seed
create allocated capacity_pow2 =
    elim (with_capacity {A = ℕ} handle_traits allocated (capacity_pow2 * 2 % size_mod)) [
      | none ↦ none
      | some (unexpected e) ↦ none
      | some (value ring) ↦
          Option.map
            (λ free_ring. record {
              capacity = capacity_pow2;
              storage = replicate capacity_pow2 default_packet;
              free_ring = free_ring;
            })
            (seed capacity_pow2 0 ring)
    ]

-- The handle is what `acquire` assigns to `out_handle`, and none is its `false`.
pub acquire : PacketPool → Option (Option ℕ × PacketPool)
acquire p = Option.map (λ r. (r.0, record p { free_ring = r.1 })) (pop copied p.free_ring)

pub release : PacketPool → ℕ → Option (Bool × PacketPool)
release p handle = Option.map (λ r. (r.0, record p { free_ring = r.1 })) (push p.free_ring handle)

-- `get(h)`, read, and written through the reference that it returns.
pub get : PacketPool → ℕ → Option Packet
get p h = if ltb h p.capacity then get_elem? p.storage h else none

pub get_write : PacketPool → ℕ → Packet → Option PacketPool
get_write p h packet =
    if ltb h p.capacity then some (record p { storage = set p.storage h packet }) else none
