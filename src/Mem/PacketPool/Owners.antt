-- ===== src/Mem/PacketPool/Owners.antt =====
-- Who owns a packet handle: the free list of a `PacketPool` or a client.
use alpha_smart_router.Base.{
  ℕ, zero, suc, ◌+◌, ◌*◌, ◌^◌, ◌≤◌, ◌<◌, ◌≡◌, refl, ◌∙◌, ap, sym, subst, Bool, true, none, some,
  List, [], ◌∷◌, ◌++◌, arith, length, length-replicate, length-append, ◌⊎◌, inl, inr, List-cases,
}
use mathlib.Core.HLevel.{×_prop}
use mathlib.Core.Logic.{∥∥₁_elim}
use mathlib.Core.Logic.Or
use mathlib.Core.List.{
  Mem, Nodup, Perm, Permᴰ, Nodup-cons, Nodup-nil, not-mem-nil, mem-cons, mem-append_right,
  mem-cons_self, append-nil, append_assoc, perm_middle,
}
use mathlib.Core.List.Perm
use native.Mathlib.Bridge.{le_prop}
use native.Mathlib.Nat.{ℕ_set, pow-le-pow_right}
use alpha_smart_router.Mem.Spsc.Invariant.{Holds}
use alpha_smart_router.Mem.Spsc.Refine.{push_with_room, pop_with_some, pop-none}
use alpha_smart_router.Mem.PacketPool.{
  PacketPool, packet_handle, default_packet, copied, create, acquire, release,
}
use alpha_smart_router.Mem.PacketPool.Create.{handles, length-handles, create-Holds}

length-permᴰ {ℓ} : {A : Type ℓ} {xs ys : List A} → Permᴰ xs ys → length xs ≡ length ys
length-permᴰ Permᴰ.nil = refl
length-permᴰ (Permᴰ.cons e p) = ap suc (length-permᴰ p)
length-permᴰ (Permᴰ.swap e f) = refl
length-permᴰ (Permᴰ.trans p r) = length-permᴰ p ∙ length-permᴰ r

pub length-perm {ℓ} : {A : Type ℓ} {xs ys : List A} → Perm xs ys → length xs ≡ length ys
length-perm p = ∥∥₁_elim p (ℕ_set _ _) length-permᴰ

-- Up to 2^32 of them, the handles are the indices themselves.
mem-handles : (n i x : ℕ) → i + n ≤ 2 ^ 32 → Mem x (handles n i) → (i ≤ x) × (x < i + n)
mem-handles zero i x small m = absurd (not-mem-nil m)
mem-handles (suc n) i x small m =
    Or.elim (×_prop le_prop le_prop) (mem-cons.0 m) (λ e. omega arith)
      (λ r. let b = mem-handles n (suc i) x (omega arith) r in omega arith)

pub handles-Nodup : (n i : ℕ) → i + n ≤ 2 ^ 32 → Nodup (handles n i)
handles-Nodup zero i small = Nodup-nil
handles-Nodup (suc n) i small = Nodup-cons.1 (
  λ m. let b = mem-handles n (suc i) (packet_handle i) (omega arith) m in omega arith,
  handles-Nodup n (suc i) (omega arith),
)

-- The clients hold the handles `held`; every other handle is on the free list, and none is twice.
pub record Owns (p : PacketPool) (held : List ℕ) : Type 0 where
  pub free : List ℕ
  pub listed : Holds p.free_ring free
  pub shared : Perm (free ++ held) (handles p.capacity 0)
  pub sized : p.free_ring.capacity ≡ p.capacity * 2
  pub backed : length p.storage ≡ p.capacity
  pub small : p.capacity ≤ 2 ^ 32

-- One call by a client that gives back only what it holds.
pub data Use (p : PacketPool) (held : List ℕ) : PacketPool → List ℕ → Type 0 where
  take : {p' : PacketPool} (h : ℕ) → acquire p ≡ some (some h, p') → Use p held p' (h ∷ held)
  fail : {p' : PacketPool} → acquire p ≡ some (none, p') → Use p held p' held
  give :
      {p' : PacketPool} (done : Bool) (before after : List ℕ) (h : ℕ)
      → held ≡ before ++ (h ∷ after)
      → release p h ≡ some (done, p')
      → Use p held p' (before ++ after)

module _ (p : PacketPool) (held : List ℕ) (o : Owns p held) where
  counted : length o.free + length held ≡ p.capacity
  counted = sym (length-append o.free held) ∙ length-perm o.shared ∙ length-handles p.capacity 0

  distinct : Nodup (o.free ++ held)
  distinct = Perm.nodup (Perm.symm o.shared) (handles-Nodup p.capacity 0 (omega (arith, o.small)))

  -- Of a pool whose clients hold the handles `held`, the rest being free: to give back one of
  -- `held` succeeds, and then the clients hold the others and the rest is free.
  pub release-Owns :
      (before after : List ℕ) (h : ℕ)
      → held ≡ before ++ (h ∷ after)
      → (p' : PacketPool) × (release p h ≡ some (true, p')) × Owns p' (before ++ after)
  unfolding release
  release-Owns before after h e =
      let (ring, pushes, listed, same) =
        push_with_room p.free_ring o.free h o.listed (omega (arith, room, o.sized)) in
      (
        record p { free_ring = ring },
        rw (pushes, release),
        record {
          free = o.free ++ (h ∷ []);
          listed = listed;
          shared =
              Perm.trans moved (subst (λ l. Perm (o.free ++ l) (handles p.capacity 0)) e o.shared);
          sized = same ∙ o.sized;
          backed = o.backed;
          small = o.small;
        },
      )
    where
      room : suc (length o.free) < p.capacity * 2
      room = omega (arith, counted, ap length e, length-append before (h ∷ after))

      moved : Perm ((o.free ++ (h ∷ [])) ++ (before ++ after)) (o.free ++ (before ++ (h ∷ after)))
      moved = rw append_assoc (Perm.append_left o.free (Perm.symm (perm_middle before after)))

  taken-Owns :
      (x : ℕ) (xs : List ℕ)
      → o.free ≡ x ∷ xs
      → (p' : PacketPool) × (acquire p ≡ some (some x, p')) × Owns p' (x ∷ held)
  unfolding acquire
  taken-Owns x xs e =
      let (ring, pops, listed, same) =
        pop_with_some copied p.free_ring x xs (subst (Holds p.free_ring) e o.listed) in
      (
        record p { free_ring = ring },
        rw (pops, acquire),
        record {
          free = xs;
          listed = listed;
          shared =
              Perm.trans (perm_middle xs held)
                (subst (λ l. Perm (l ++ held) (handles p.capacity 0)) e o.shared);
          sized = same ∙ o.sized;
          backed = o.backed;
          small = o.small;
        },
      )

  missed : o.free ≡ [] → acquire p ≡ some (none, p)
  unfolding acquire
  missed e = rw (pop-none copied p.free_ring (subst (Holds p.free_ring) e o.listed), acquire)

  fresh : (x : ℕ) (xs : List ℕ) → o.free ≡ x ∷ xs → (¬ Mem x held) × (x < p.capacity)
  fresh x xs e = (
    λ m. alone (mem-append_right xs m),
    (let inside = mem-handles p.capacity 0 x (omega (arith, o.small)) there in omega arith),
  )
    where
      alone : ¬ Mem x (xs ++ held)
      alone = (Nodup-cons.0 (subst (λ l. Nodup (l ++ held)) e distinct)).0

      there : Mem x (handles p.capacity 0)
      there =
          (Perm.mem_iff (subst (λ l. Perm (l ++ held) (handles p.capacity 0)) e o.shared)).0
            mem-cons_self

  -- Of a pool whose clients hold the handles `held`, the rest being free: either they hold as many
  -- as the capacity, and `acquire` fails and changes nothing; or it gives a handle in range that no
  -- client holds, which the client then holds.
  pub acquire_lem :
      ((length held ≡ p.capacity) × (acquire p ≡ some (none, p)))
      ⊎ ((h : ℕ) × (p' : PacketPool) × (acquire p ≡ some (some h, p'))
          × (¬ Mem h held)
          × (h < p.capacity)
          × Owns p' (h ∷ held))
  acquire_lem = elim (List-cases o.free) [
    | inl e ↦ inl (omega (arith, counted, ap length e), missed e)
    | inr (x, xs, e) ↦
        let (p', takes, o') = taken-Owns x xs e in
        let (alone, bound) = fresh x xs e in inr (x, p', takes, alone, bound, o')
  ]

  -- A pool of at least two packets, whose clients hold some handles, the rest being free, takes
  -- back any handle, also one that is free already or out of range, and appends it to the free
  -- list.
  pub release_unchecked :
      (h : ℕ)
      → 2 ≤ p.capacity
      → (p' : PacketPool) × (release p h ≡ some (true, p'))
        × Holds p'.free_ring (o.free ++ (h ∷ []))
  unfolding release
  release_unchecked h big =
      let (ring, pushes, listed, same) =
        push_with_room p.free_ring o.free h o.listed (omega (arith, counted, o.sized)) in
      (record p { free_ring = ring }, rw (pushes, release), listed)

-- For a power of two up to 2^32, with storage, the constructor makes a pool of which no client
-- holds a handle: each handle is on the free list, once.
pub create-Owns : (k : ℕ) → k ≤ 32 → (p : PacketPool) × (create true (2 ^ k) ≡ some p) × Owns p []
create-Owns k le =
    let (p, makes, listed, ring, same, stored) = create-Holds k (omega arith) in
    (
      p,
      makes,
      record {
        free = handles (2 ^ k) 0;
        listed = listed;
        shared = rw (append-nil, same) (Perm.refl _);
        sized = rw same ring;
        backed = rw (stored, same) (length-replicate (2 ^ k) default_packet);
        small = rw same (pow-le-pow_right {n = 2} (omega arith) {i = k} {j = 32} le);
      },
    )

-- If each handle is in one place, on the free list or with one client, then it is so after any call
-- of `acquire`, successful or not, and after a `release` of a handle that a client holds.
pub Use-Owns :
    {p p' : PacketPool} {held held' : List ℕ} → Use p held p' held' → Owns p held → Owns p' held'
Use-Owns {p} {held = held} (Use.take {p'} h e) o = elim (acquire_lem p held o) [
  | inl (full, fails) ↦ absurd (cc)
  | inr (x, q, takes, alone, bound, o') ↦
      let same_pool : q ≡ p' = cc in
      let same_handle : x ≡ h = cc in
      subst (λ r. Owns r (h ∷ held)) same_pool (subst (λ y. Owns q (y ∷ held)) same_handle o')
]
Use-Owns {p} {held = held} (Use.fail {p'} e) o = elim (acquire_lem p held o) [
  | inl (full, fails) ↦ subst (λ r. Owns r held) (cc) o
  | inr (x, q, takes, alone, bound, o') ↦ absurd (cc)
]
Use-Owns {p} {held = held} (Use.give {p'} done before after h split e) o =
    let (q, gives, o') = release-Owns p held o before after h split in
    subst (λ r. Owns r (before ++ after)) (cc) o'
