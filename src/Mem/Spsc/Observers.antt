-- ===== src/Mem/Spsc/Observers.antt =====
-- What the observers of `SpscQueue` and the two overloads of `push` say.
use alpha_smart_router.Base.{
  ℕ, suc, ◌+◌, ◌-◌, ◌%◌, ◌≤◌, ◌<◌, ◌≡◌, ◌∙◌, ap, List, [], ◌∷◌, arith, ◌==◌, if◌then◌else◌, length,
  dec_lt, bit_and_mask,
}
use mathlib.Core.Option
use native.Mathlib.Nat.{mod-eq_of_lt, mod-eq-sub-mod, add-mod_right}
use alpha_smart_router.Mem.Spsc.{SpscQueue, size_mod, empty, full, approx_size, push, push_move}
use alpha_smart_router.Mem.Spsc.Invariant.{
  Holds, tail_next-eq-head, tail_next-ne-head, head-ne-tail, slot_head,
}

-- The number of steps round the ring from the head to the tail.
distance : (cap h t n : ℕ) → h < cap → n < cap → t ≡ (h + n) % cap → (t + cap - h) % cap ≡ n
distance cap h t n hh hn e = elim (dec_lt (h + n) cap) [
  | yes p ↦
      let tail : t ≡ h + n = e ∙ mod-eq_of_lt p in
      ap (λ (s : ℕ). s % cap) (omega arith) ∙ add-mod_right n cap ∙ mod-eq_of_lt hn
  | no p ↦
      let tail : t ≡ h + n - cap =
        e
        ∙ mod-eq-sub-mod {n = h + n} {m = cap} (omega arith)
        ∙ mod-eq_of_lt {n = h + n - cap} {m = cap} (omega arith) in
      ap (λ (s : ℕ). s % cap) (omega arith) ∙ mod-eq_of_lt hn
]

module _ {ℓ} {A : Type ℓ} (q : SpscQueue A) (xs : List A) (h : Holds q xs) where
  open h use {frame}
  open frame use {valid, placed, bounded}

  approx_size_lem : approx_size q ≡ length xs
  unfolding approx_size
  approx_size_lem =
      rw (valid.masked, valid.power)
        (rw bit_and_mask (rw (← valid.power) (ap (λ (t : ℕ). t % q.capacity) no_wrap ∙ there)))
    where
      no_wrap :
          ((q.tail + q.capacity) % size_mod + size_mod - q.head) % size_mod
          ≡ q.tail + q.capacity - q.head
      no_wrap = omega (arith, valid.small, valid.tail_in, valid.head_in)

      there : (q.tail + q.capacity - q.head) % q.capacity ≡ length xs
      there = distance q.capacity q.head q.tail (length xs) valid.head_in bounded placed

  full_lem : full q ≡ (length xs == q.capacity - 1)
  unfolding full
  full_lem = elim (dec_lt (suc (length xs)) q.capacity) [
    | yes room ↦ ground (arith, tail_next-ne-head q (length xs) frame room)
    | no last ↦
        ground (arith, bounded, tail_next-eq-head q (length xs) frame (omega (arith, bounded)))
  ]

empty_lem {ℓ} :
    {A : Type ℓ} (q : SpscQueue A) (xs : List A) → Holds q xs → empty q ≡ (length xs == 0)
unfolding empty
empty_lem q [] h = ground (arith, h.placed, slot_head q 0 h.frame)
empty_lem q (x ∷ xs) h = ground (arith, head-ne-tail q (length (x ∷ xs)) h.frame (omega arith))

-- Of a ring that holds `xs`, while no other thread acts: `empty` tells whether `xs` has no element,
-- `full` whether it has `capacity - 1`, `approx_size` is its exact length, and that is at most
-- `capacity - 1`.
pub observers_lem {ℓ} :
    {A : Type ℓ} (q : SpscQueue A) (xs : List A)
    → Holds q xs
    → (empty q ≡ (length xs == 0))
      × (full q ≡ (length xs == q.capacity - 1))
      × (approx_size q ≡ length xs)
      × (length xs ≤ q.capacity - 1)
observers_lem q xs h =
    (empty_lem q xs h, full_lem q xs h, approx_size_lem q xs h, omega (arith, h.bounded))

-- The overload that moves does to the queue what the other does; it consumes its argument on
-- success and leaves it alone when the queue is full.
pub push_move-eq-push {ℓ} :
    {A : Type ℓ} (moved : A → A) (q : SpscQueue A) (v : A)
    → push_move moved q v ≡ Option.map (λ r. (r.0, if r.0 then moved v else v, r.1)) (push q v)
unfolding push push_move
push_move-eq-push moved q v = ground arith
