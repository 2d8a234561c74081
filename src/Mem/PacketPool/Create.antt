-- ===== src/Mem/PacketPool/Create.antt =====
-- What the constructor of `PacketPool` puts on the free list.
use alpha_smart_router.Base.{
  ℕ, zero, suc, ◌+◌, ◌*◌, ◌%◌, ◌^◌, ◌≤◌, ◌<◌, ◌≡◌, ◌≢◌, refl, ◌∙◌, ap, Bool, true, none, some, List,
  [], ◌∷◌, ◌++◌, arith, length, replicate, length-append, pow_two_pos,
}
use mathlib.Core.List.{append-nil, append_assoc}
use native.Mathlib.Nat.{pow-suc, pow-le-pow_right}
use alpha_smart_router.Mem.Spsc.{SpscQueue, size_mod, traits_ok}
use alpha_smart_router.Mem.Spsc.Invariant.{Holds}
use alpha_smart_router.Mem.Spsc.Create.{with_capacity-Holds, with_capacity_refuses}
use alpha_smart_router.Mem.Spsc.Refine.{push_with_room}
use alpha_smart_router.Mem.PacketPool.{
  PacketPool, packet_handle, default_packet, handle_traits, seed, create,
}

-- the handles of `rounds` indices from `i` on
abbrev pub handles : (rounds i : ℕ) → List ℕ
handles zero i = []
handles (suc rounds) i = packet_handle i ∷ handles rounds (suc i)

pub length-handles : (n i : ℕ) → length (handles n i) ≡ n
length-handles zero i = refl
length-handles (suc n) i = ap suc (length-handles n (suc i))

-- While there is room, seeding appends the handles in order.
seed-Holds :
    (n i : ℕ) (ring : SpscQueue ℕ) (xs : List ℕ)
    → Holds ring xs
    → length xs + n < ring.capacity
    → (ring' : SpscQueue ℕ) × (seed n i ring ≡ some ring')
      × Holds ring' (xs ++ handles n i)
      × (ring'.capacity ≡ ring.capacity)
unfolding seed
seed-Holds zero i ring xs h room = (ring, refl, rw append-nil h, refl)
seed-Holds (suc n) i ring xs h room =
    let (r, pushes, h', same) = push_with_room ring xs (packet_handle i) h (omega arith) in
    let (ring', seeds, held, kept) =
      seed-Holds n (suc i) r (xs ++ (packet_handle i ∷ [])) h'
        (omega (arith, length-append xs (packet_handle i ∷ []), same)) in
    (ring', rw (pushes, seed) seeds, (rw append_assoc at held), kept ∙ same)

-- From every power of two up to 2^60 the constructor makes a pool whose free list holds one handle
-- for each descriptor, in order, each cut to 32 bits; there is room for all of them.
pub create-Holds :
    (k : ℕ)
    → k ≤ 60
    → (p : PacketPool) × (create true (2 ^ k) ≡ some p)
      × Holds p.free_ring (handles (2 ^ k) 0)
      × (p.free_ring.capacity ≡ 2 ^ k * 2)
      × (p.capacity ≡ 2 ^ k)
      × (p.storage ≡ replicate (2 ^ k) default_packet)
unfolding create traits_ok
create-Holds k small =
    let (ring, made, h, cap) =
      with_capacity-Holds {A = ℕ} handle_traits (suc k) fits (omega arith) whole refl in
    let (ring', seeds, held, kept) =
      seed-Holds (2 ^ k) 0 ring [] h (rw (cap, pow-suc) (omega (arith, pow_two_pos k))) in
    (
      record { capacity = 2 ^ k; storage = replicate (2 ^ k) default_packet; free_ring = ring' },
      rw (no_wrap, made, create) (rw seeds),
      held,
      kept ∙ cap ∙ pow-suc 2 k,
      refl,
      refl,
    )
  where
    bound : 2 ^ k ≤ 2 ^ 60
    bound = pow-le-pow_right {n = 2} (omega arith) {i = k} {j = 60} small

    fits : 2 ^ suc k < size_mod
    fits = rw (pow-suc 2 k) (omega (arith, bound))

    whole : 2 ^ suc k * 4 < size_mod
    whole = rw (pow-suc 2 k) (omega (arith, bound))

    no_wrap : 2 ^ k * 2 % size_mod ≡ 2 ^ suc k
    no_wrap = rw (pow-suc 2 k) (omega (arith, bound))

-- From a capacity below 2^63 that is no power of two, zero included, the constructor of the pool
-- aborts.
pub create_aborts :
    (allocated : Bool) (n : ℕ) → n < 2 ^ 63 → ((k : ℕ) → n ≢ 2 ^ k) → create allocated n ≡ none
unfolding create
create_aborts allocated n small no_power =
    rw (with_capacity_refuses {A = ℕ} handle_traits allocated (n * 2 % size_mod) doubled, create)
  where
    doubled : (k : ℕ) → n * 2 % size_mod ≢ 2 ^ k
    doubled zero e = omega arith
    doubled (suc k) e = no_power k (omega (arith, pow-suc 2 k))
