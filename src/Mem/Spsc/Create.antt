-- ===== src/Mem/Spsc/Create.antt =====
-- How a `SpscQueue` comes to be: `with_capacity`, and the move of a queue into another.
use alpha_smart_router.Base.{
  ℕ, ◌-◌, ◌*◌, ◌%◌, ◌^◌, ◌≤◌, ◌<◌, ◌≡◌, ◌≢◌, ◌⊎◌, inl, inr, refl, ◌∙◌, sym, ap, subst, bit_and,
  Bool, true, false, none, List, [], ◌∷◌, arith, ◌==◌, if◌then◌else◌, length, dec_lt, ℕ_discrete,
  Bool-cases, replicate, length-replicate, bit_and_pow, bit_and_mask, some, pow_of_bit_and,
  pow_two_pos,
}
use native.Mathlib.Nat.{pow-le-pow_right, mod-eq_of_lt, mod-lt, mul-div_cancel, div-lt_iff_lt-mul}
use alpha_smart_router.Mem.Spsc.{
  SpscQueue, SpscError, ElementTraits, traits_ok, capacity_zero, capacity_not_power_of_two,
  element_not_nothrow_movable, allocation_failed, value, unexpected, with_capacity, size_mod, empty,
  objects, push, pop, move_from,
}
use alpha_smart_router.Mem.Spsc.Invariant.{Holds, head-ne-tail}

pow_small : (k : ℕ) → 2 ^ k < size_mod → 2 ^ k ≤ 2 ^ 63
pow_small k h = elim (dec_lt 63 k) [
  | yes big ↦ absurd (omega (arith, pow-le-pow_right {n = 2} (omega arith) {i = 64} {j = k} big))
  | no fits ↦ pow-le-pow_right {n = 2} (omega arith) {i = k} {j = 63} (omega arith)
]

abbrev fresh {ℓ} : {A : Type ℓ} → ℕ → SpscQueue A
fresh cap = record { head = 0; tail = 0; buf = replicate cap none; capacity = cap; mask = cap - 1 }

fresh-Holds {ℓ} : {A : Type ℓ} (k : ℕ) → 2 ^ k < size_mod → Holds {A = A} (fresh (2 ^ k)) []
fresh-Holds k small = record {
  frame = record {
    valid = record {
      log = k;
      power = refl;
      small = pow_small k small;
      masked = refl;
      stored = length-replicate (2 ^ k) none;
      head_in = pow_two_pos k;
      tail_in = pow_two_pos k;
    };
    placed = omega (arith, pow_two_pos k);
    bounded = pow_two_pos k;
  };
  cells = λ i v e. ground arith;
}

objects-whole :
    (t : ElementTraits) (cap : ℕ)
    → 0 < t.size
    → cap * t.size < size_mod
    → t.trivially_copyable ≡ true
    → objects t (cap * t.size % size_mod) ≡ cap
objects-whole t cap sized fits plain = rw (plain, mod-eq_of_lt fits) (mul-div_cancel cap sized)

-- A product that wraps asks for less than the elements take.
objects-short :
    (t : ElementTraits) (cap : ℕ)
    → 0 < t.size
    → size_mod ≤ cap * t.size
    → t.trivially_copyable ≡ true
    → objects t (cap * t.size % size_mod) < cap
objects-short t cap sized wraps plain =
    let below : cap * t.size % size_mod < size_mod =
      mod-lt (cap * t.size) {m = size_mod} (omega arith) in
    rw plain ((div-lt_iff_lt-mul sized).1 (omega (arith, below)))

-- At a power of two below 2^64, with storage that the product does not cut short, and of a trivially
-- copyable element type, `with_capacity` returns a valid queue of that capacity that holds nothing.
pub with_capacity-Holds {ℓ} :
    {A : Type ℓ} (t : ElementTraits) (k : ℕ)
    → 2 ^ k < size_mod
    → 0 < t.size
    → 2 ^ k * t.size < size_mod
    → t.trivially_copyable ≡ true
    → (q : SpscQueue A) × (with_capacity t true (2 ^ k) ≡ some (value q))
      × Holds q []
      × (q.capacity ≡ 2 ^ k)
unfolding with_capacity traits_ok
with_capacity-Holds t k small sized fits plain = (
  fresh (2 ^ k),
  ground (arith, pow_two_pos k, bit_and_pow k, objects-whole t (2 ^ k) sized fits plain),
  fresh-Holds k small,
  refl,
)

-- At a capacity that is no power of two, `with_capacity` returns the error for a capacity of zero
-- if it is 0 and else that for no power of two, whatever the element type and the allocation.
pub with_capacity_refuses {ℓ} :
    {A : Type ℓ} (t : ElementTraits) (allocated : Bool) (cap : ℕ)
    → ((k : ℕ) → cap ≢ 2 ^ k)
    → with_capacity {A = A} t allocated cap
      ≡ some (unexpected (if cap == 0 then capacity_zero else capacity_not_power_of_two))
unfolding with_capacity
with_capacity_refuses t allocated cap no_power = elim (ℕ_discrete cap 0) [
  | yes zero_cap ↦ ground arith
  | no pos ↦
      let mixed : bit_and cap (cap - 1) ≢ 0 =
        λ e. let (k, p) = pow_of_bit_and cap (omega arith) e in no_power k p in
      ground arith
]

abbrev pub NoPower : ℕ → Type 0
NoPower cap = (k : ℕ) → cap ≢ 2 ^ k

abbrev pub Power : ℕ → Type 0
Power cap = (k : ℕ) × (cap ≡ 2 ^ k)

pub Power-cases : (cap : ℕ) → Power cap ⊎ NoPower cap
Power-cases cap = elim (ℕ_discrete cap 0) [
  | yes zero_cap ↦ inr (λ k e. omega (arith, pow_two_pos k))
  | no pos ↦ elim (ℕ_discrete (bit_and cap (cap - 1)) 0) [
    | yes apart ↦ inl (pow_of_bit_and cap (omega arith) apart)
    | no mixed ↦ inr (λ k e. mixed (ap (λ (c : ℕ). bit_and c (c - 1)) e ∙ bit_and_pow k))
  ]
]

-- Why `with_capacity` refuses. It never does for want of storage.
abbrev pub Refusal : ElementTraits → ℕ → SpscError → Type 0
Refusal t cap capacity_zero = cap ≡ 0
Refusal t cap capacity_not_power_of_two = (0 < cap) × NoPower cap
Refusal t cap element_not_nothrow_movable = Power cap × (traits_ok t ≡ false)
Refusal t cap allocation_failed = ⊥

-- What the queue that `with_capacity` returns has for its capacity: an object for each cell, fewer
-- since the number of bytes wrapped, or none at all, so that every `push` with room is undefined
-- behaviour.
abbrev pub Storage {ℓ} : {A : Type ℓ} → ElementTraits → ℕ → SpscQueue A → Type ℓ
Storage {A = A} t cap q =
    ((t.trivially_copyable ≡ true) × (cap * t.size < size_mod) × Holds q [])
    ⊎ ((t.trivially_copyable ≡ true) × (size_mod ≤ cap * t.size) × (length q.buf < cap))
    ⊎ ((t.trivially_copyable ≡ false) × (1 < cap → (v : A) → push q v ≡ none))

module _ {ℓ} (A : Type ℓ) (t : ElementTraits) (sized : 0 < t.size) where
  -- The queue that `with_capacity` returns.
  abbrev made : ℕ → SpscQueue A
  made cap = record {
    head = 0;
    tail = 0;
    buf = replicate (objects t (cap * t.size % size_mod)) none;
    capacity = cap;
    mask = cap - 1;
  }

  -- What `with_capacity` does: return a queue, end the program, or return an error.
  abbrev pub Creation : (allocated : Bool) → ℕ → Type ℓ
  Creation allocated cap =
      (Power cap
        × (traits_ok t ≡ true)
        × (allocated ≡ true)
        × ((q : SpscQueue A) × (with_capacity t allocated cap ≡ some (value q))
            × (q.capacity ≡ cap)
            × Storage t cap q))
      ⊎ (Power cap
          × (traits_ok t ≡ true)
          × (allocated ≡ false)
          × (with_capacity {A = A} t allocated cap ≡ none))
      ⊎ ((e : SpscError) × (with_capacity {A = A} t allocated cap ≡ some (unexpected e))
          × Refusal t cap e)

  raw-push :
      (k : ℕ) → t.trivially_copyable ≡ false → 1 < 2 ^ k → (v : A) → push (made (2 ^ k)) v ≡ none
  unfolding push
  raw-push k bad room v = ground (arith, one_masked)
    where
      one_masked : bit_and 1 (2 ^ k - 1) ≡ 1
      one_masked = bit_and_mask k 1 ∙ mod-eq_of_lt room

  made-Storage : (k : ℕ) → 2 ^ k < size_mod → Storage t (2 ^ k) (made (2 ^ k))
  made-Storage k small = elim (Bool-cases t.trivially_copyable) [
    | inr raw ↦ inr (inr (raw, raw-push k raw))
    | inl plain ↦ elim (dec_lt (2 ^ k * t.size) size_mod) [
      | yes fits ↦
          inl (plain, fits, rw (objects-whole t (2 ^ k) sized fits plain) (fresh-Holds k small))
      | no wraps ↦ inr (
          inl (
            plain,
            omega arith,
            rw length-replicate (objects-short t (2 ^ k) sized (omega arith) plain),
          ))
    ]
  ]

  at_power : (allocated : Bool) (k : ℕ) → 2 ^ k < size_mod → Creation allocated (2 ^ k)
  unfolding with_capacity
  at_power allocated k small = elim (Bool-cases (traits_ok t)) [
    | inr bad ↦ inr (
        inr (
          element_not_nothrow_movable,
          ground (arith, pow_two_pos k, bit_and_pow k),
          ((k, refl), bad),
        ))
    | inl good ↦ with_ok good allocated
  ]
    where
      with_ok : traits_ok t ≡ true → (allocated : Bool) → Creation allocated (2 ^ k)
      with_ok good false =
          inr (inl ((k, refl), good, refl, ground (arith, pow_two_pos k, bit_and_pow k)))
      with_ok good true = inl (
        (k, refl),
        good,
        refl,
        (made (2 ^ k), ground (arith, pow_two_pos k, bit_and_pow k), refl, made-Storage k small),
      )

  at-NoPower : (allocated : Bool) (cap : ℕ) → NoPower cap → Creation allocated cap
  at-NoPower allocated cap no_power = elim (ℕ_discrete cap 0) [
    | yes none_asked ↦ inr (
        inr (
          capacity_zero,
          with_capacity_refuses {A = A} t allocated cap no_power ∙ rw none_asked refl,
          none_asked,
        ))
    | no pos ↦ inr (
        inr (
          capacity_not_power_of_two,
          with_capacity_refuses {A = A} t allocated cap no_power ∙ ground arith,
          (omega arith, no_power),
        ))
  ]

  pub with_capacity_lem : (allocated : Bool) (cap : ℕ) → cap < size_mod → Creation allocated cap
  with_capacity_lem allocated cap small = elim (Power-cases cap) [
    | inr no_power ↦ at-NoPower allocated cap no_power
    | inl (k, e) ↦
        subst (λ (c : ℕ). Creation allocated c) (sym e) (at_power allocated k (omega (arith, e)))
  ]

-- A queue that held an element before it was moved from does not report that it is empty
-- afterwards, and `pop` on it is undefined behaviour.
pub moved_from_pop {ℓ} :
    {A : Type ℓ} (moved : A → A) (q : SpscQueue A) (x : A) (xs : List A)
    → Holds q (x ∷ xs)
    → (empty (move_from q).1 ≡ false) × (pop moved (move_from q).1 ≡ none)
unfolding move_from empty pop
moved_from_pop moved q x xs h =
    let apart = head-ne-tail q (length (x ∷ xs)) h.frame (omega arith) in
    (ground arith, ground arith)
