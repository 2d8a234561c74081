-- ===== src/Mem/Spsc/Invariant.antt =====
-- The representation of `SpscQueue`: what its fields satisfy, and which elements it holds.
use alpha_smart_router.Base.{
  ℕ, suc, ◌+◌, ◌-◌, ◌%◌, ◌^◌, ◌≤◌, ◌<◌, ◌≡◌, ◌≢◌, ◌∙◌, ap, sym, Option, some, List, arith, length,
  get_elem?, bit_and_mask, dec_lt,
}
use native.Mathlib.Nat.{mod-eq_of_lt, mod-eq-sub-mod, mod-add-mod, mod-lt, add-zero, add-mod_right}
use alpha_smart_router.Mem.Spsc.{SpscQueue, size_mod, next_index}

pub record IsValid {ℓ} {A : Type ℓ} (q : SpscQueue A) : Type 0 where
  pub log : ℕ
  pub power : q.capacity ≡ 2 ^ log
  pub small : q.capacity ≤ 2 ^ 63
  pub masked : q.mask ≡ q.capacity - 1
  pub stored : length q.buf ≡ q.capacity
  pub head_in : q.head < q.capacity
  pub tail_in : q.tail < q.capacity

-- The indices frame `n` elements, from `head` on round the ring.
pub record Frame {ℓ} {A : Type ℓ} (q : SpscQueue A) (n : ℕ) : Type 0 where
  pub valid : IsValid q
  pub placed : q.tail ≡ (q.head + n) % q.capacity
  pub bounded : n < q.capacity

-- The queue holds exactly `xs`, oldest first.
pub record Holds {ℓ} {A : Type ℓ} (q : SpscQueue A) (xs : List A) : Type ℓ where
  pub frame : Frame q (length xs)
  pub open frame use *
  pub cells :
      (i : ℕ) (v : A)
      → get_elem? xs i ≡ some v
      → get_elem? q.buf ((q.head + i) % q.capacity) ≡ some (some v)

pub next_index_lem {ℓ} :
    {A : Type ℓ} (q : SpscQueue A) (i : ℕ)
    → IsValid q
    → i < q.capacity
    → next_index q i ≡ (i + 1) % q.capacity
next_index_lem q i v h = rw (v.masked, v.power) (rw bit_and_mask (rw (← v.power) wrap))
  where
    wrap : (i + 1) % size_mod % q.capacity ≡ (i + 1) % q.capacity
    wrap = ap (λ (t : ℕ). t % q.capacity) (let s = v.small in omega arith)

-- Fewer than `cap` steps round the ring lead to different slots.
pub slot-ne : (cap h i j : ℕ) → h < cap → i < cap → j < cap → i ≢ j → (h + i) % cap ≢ (h + j) % cap
slot-ne cap h i j hh hi hj ne = elim (dec_lt (h + i) cap) [
  | yes p ↦ elim (dec_lt (h + j) cap) [
    | yes r ↦ omega (arith, mod-eq_of_lt p, mod-eq_of_lt r)
    | no r ↦ omega (arith, mod-eq_of_lt p, over j r hj)
  ]
  | no p ↦ elim (dec_lt (h + j) cap) [
    | yes r ↦ omega (arith, over i p hi, mod-eq_of_lt r)
    | no r ↦ omega (arith, over i p hi, over j r hj)
  ]
]
  where
    over : (k : ℕ) → ¬ (h + k < cap) → k < cap → (h + k) % cap ≡ h + k - cap
    over k p hk =
        mod-eq-sub-mod {n = h + k} {m = cap} (omega arith)
        ∙ mod-eq_of_lt {n = h + k - cap} {m = cap} (omega arith)

-- Moving the start of the ring by one shifts the slots by one.
pub slot-suc : (cap h i : ℕ) → ((h + 1) % cap + i) % cap ≡ (h + suc i) % cap
slot-suc cap h i = mod-add-mod (h + 1) cap i ∙ ap (λ (t : ℕ). t % cap) (omega arith)

-- The two ends of a frame.
module _ {ℓ} {A : Type ℓ} (q : SpscQueue A) (n : ℕ) (f : Frame q n) where
  open f use {valid, placed, bounded}

  slot_next : ((q.head + n) % q.capacity + 1) % q.capacity ≡ (q.head + suc n) % q.capacity
  slot_next = mod-add-mod _ q.capacity 1 ∙ ap (λ (t : ℕ). t % q.capacity) (omega arith)

  pub slot_head : (q.head + 0) % q.capacity ≡ q.head
  slot_head = rw add-zero (mod-eq_of_lt valid.head_in)

  -- the index after the tail, from the head on
  pub tail_next : next_index q q.tail ≡ (q.head + suc n) % q.capacity
  tail_next =
      next_index_lem q q.tail valid valid.tail_in
      ∙ ap (λ (t : ℕ). (t + 1) % q.capacity) placed
      ∙ slot_next

  pub tail_next-eq-head : suc n ≡ q.capacity → next_index q q.tail ≡ q.head
  tail_next-eq-head e =
      tail_next ∙ rw e (add-mod_right q.head q.capacity ∙ mod-eq_of_lt valid.head_in)

  pub tail_next-ne-head : suc n < q.capacity → next_index q q.tail ≢ q.head
  tail_next-ne-head lt e =
      slot-ne q.capacity q.head (suc n) 0 valid.head_in lt (omega arith) (omega arith)
        (sym tail_next ∙ e ∙ sym slot_head)

  pub tail_next-lt : next_index q q.tail < q.capacity
  tail_next-lt = rw tail_next (mod-lt _ (omega (arith, bounded)))

  -- The tail is none of the slots framed.
  pub tail-ne-slot : (i : ℕ) → i < n → q.tail ≢ (q.head + i) % q.capacity
  tail-ne-slot i lt same =
      slot-ne q.capacity q.head n i valid.head_in bounded (omega (arith, bounded)) (omega arith)
        (sym placed ∙ same)

  -- The head is none of the slots framed behind it.
  pub head-ne-slot : (i : ℕ) → suc i < q.capacity → q.head ≢ (q.head + suc i) % q.capacity
  head-ne-slot i lt same =
      slot-ne q.capacity q.head 0 (suc i) valid.head_in (omega arith) lt (omega arith)
        (slot_head ∙ same)

  pub head-ne-tail : 0 < n → q.head ≢ q.tail
  head-ne-tail pos same =
      slot-ne q.capacity q.head 0 n valid.head_in (omega (arith, bounded)) bounded (omega arith)
        (slot_head ∙ same ∙ placed)

  pub head-eq-tail : n ≡ 0 → q.head ≡ q.tail
  head-eq-tail e = sym (placed ∙ ap (λ (t : ℕ). (q.head + t) % q.capacity) e ∙ slot_head)

  -- A frame grows at its tail.
  pub grow-Frame :
      (buf : List (Option A))
      → length buf ≡ length q.buf
      → suc n < q.capacity
      → Frame (record q { buf = buf; tail = next_index q q.tail }) (suc n)
  grow-Frame buf same lt = record {
    valid = record {
      log = valid.log;
      power = valid.power;
      small = valid.small;
      masked = valid.masked;
      stored = same ∙ valid.stored;
      head_in = valid.head_in;
      tail_in = tail_next-lt;
    };
    placed = tail_next;
    bounded = lt;
  }

-- A frame shrinks at its head.
pub shrink-Frame {ℓ} :
    {A : Type ℓ} (q : SpscQueue A) (n : ℕ) (buf : List (Option A))
    → length buf ≡ length q.buf
    → Frame q (suc n)
    → Frame (record q { buf = buf; head = next_index q q.head }) n
shrink-Frame q n buf same f = record {
  valid = record {
    log = valid.log;
    power = valid.power;
    small = valid.small;
    masked = valid.masked;
    stored = same ∙ valid.stored;
    head_in = rw head_next (mod-lt _ (omega (arith, bounded)));
    tail_in = valid.tail_in;
  };
  placed =
      placed
      ∙ sym (slot-suc q.capacity q.head n)
      ∙ ap (λ (t : ℕ). (t + n) % q.capacity) (sym head_next);
  bounded = omega (arith, bounded);
}
  where
    open f use {valid, placed, bounded}

    head_next : next_index q q.head ≡ (q.head + 1) % q.capacity
    head_next = next_index_lem q q.head valid valid.head_in
