-- ===== src/Mem/PacketPool/Creation.antt =====
-- The constructor of `PacketPool` at every capacity: what it makes, and when it aborts.
use alpha_smart_router.Base.{
  ℕ, ◌*◌, ◌%◌, ◌^◌, ◌≤◌, ◌≡◌, ◌⊎◌, inl, inr, refl, ◌∙◌, ap, Bool, true, false, none, some, [],
  arith, dec_lt,
}
use native.Mathlib.Nat.{pow-le-pow_right}
use alpha_smart_router.Mem.Spsc.{size_mod}
use alpha_smart_router.Mem.Spsc.Create.{NoPower, Power-cases, with_capacity_lem}
use alpha_smart_router.Mem.PacketPool.{PacketPool, handle_traits, create}
use alpha_smart_router.Mem.PacketPool.Create.{create_aborts}
use alpha_smart_router.Mem.PacketPool.Owners.{Owns, create-Owns}

log_small : (k : ℕ) → 2 ^ k ≤ 2 ^ 32 → k ≤ 32
log_small k le = elim (dec_lt 32 k) [
  | yes big ↦ absurd (omega (arith, pow-le-pow_right {n = 2} (omega arith) {i = 33} {j = k} big))
  | no fits ↦ omega arith
]

create-no_storage : (n : ℕ) → create false n ≡ none
unfolding create
create-no_storage n =
    elim (with_capacity_lem ℕ handle_traits (omega arith) false (n * 2 % size_mod) (omega arith)) [
      | inl (power, good, stored, made) ↦ cc
      | inr (inl (power, good, missing, ends)) ↦ rw (ends, create) refl
      | inr (inr (e, refused, why)) ↦ rw (refused, create) refl
    ]

-- What the constructor returns: a pool, or none where it aborts.
abbrev pub Made : Bool → ℕ → Type 0
Made allocated n =
    ((k : ℕ) × (p : PacketPool) × (n ≡ 2 ^ k)
      × (allocated ≡ true)
      × (create allocated n ≡ some p)
      × Owns p [])
    ⊎ ((create allocated n ≡ none) × (NoPower n ⊎ (allocated ≡ false)))

-- Up to a capacity of 2^32: of a power of two, with storage, the constructor makes a pool of which
-- no client holds a handle, each being on the free list, once; else it aborts, of a capacity of
-- zero too.
pub create_lem : (allocated : Bool) (n : ℕ) → n ≤ 2 ^ 32 → Made allocated n
create_lem false n small = inr (create-no_storage n, inr refl)
create_lem true n small = elim (Power-cases n) [
  | inr no_power ↦ inr (create_aborts true n (omega arith) no_power, inl no_power)
  | inl (k, e) ↦
      let (p, makes, owns) = create-Owns k (log_small k (omega (arith, e))) in
      inl (k, p, e, refl, ap (create true) e ∙ makes, owns)
]
