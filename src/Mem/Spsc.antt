-- ===== src/Mem/Spsc.antt =====
-- The ring buffer `SpscQueue<T>` of include/alpha/mem/spsc_queue.hpp, one call at a time.
-- `buf` lists the objects of the element type at `buf_`, and one is `none` until an element is
-- assigned to it. `operator new[]` begins the lifetime of objects only where the element type is
-- trivially copyable; elsewhere the storage stays raw, and `buf` has nothing to assign to. A result
-- `none` of an operation is undefined behaviour: an access where there is no object (raw storage,
-- outside the storage, all of a null `buf_`) or a read of an object without a value. `moved` gives
-- what a move leaves in its source, which the element type decides.
pub mod Create
pub mod Invariant
pub mod Observers
pub mod Refine
mod Tests
pub mod Threads
use alpha_smart_router.Base.{
  ℕ, ◌+◌, ◌-◌, ◌*◌, ◌/◌, ◌%◌, ◌^◌, bit_and, Bool, true, false, Option, none, some, List, [], ltb,
  leb, ◌==◌, ◌||◌, if◌then◌else◌, length, get_elem?, set, replicate, not,
}
use mathlib.Core.Option as Option

abbrev pub size_mod : ℕ
size_mod = 2 ^ 64

-- `SpscError`
pub data SpscError : Type 0 where
  capacity_zero capacity_not_power_of_two allocation_failed element_not_nothrow_movable : SpscError

-- `expected<T, E>`
pub data Expected {ℓ κ} (A : Type ℓ) (E : Type κ) : Type (ℓ ⊔ κ) where
  value : A → Expected A E
  unexpected : E → Expected A E

-- `std::is_trivially_copyable_v`, `std::is_nothrow_move_constructible_v` and `sizeof` of the element
-- type.
pub record ElementTraits : Type 0 where
  pub trivially_copyable : Bool
  pub nothrow_move_constructible : Bool
  pub size : ℕ

pub record SpscQueue {ℓ} (A : Type ℓ) : Type ℓ where
  pub head : ℕ
  pub tail : ℕ
  pub buf : List (Option A)
  pub capacity : ℕ
  pub mask : ℕ

-- `SpscQueue()`: an empty shell.
pub shell {ℓ} : {A : Type ℓ} → SpscQueue A
shell = record { head = 0; tail = 0; buf = []; capacity = 0; mask = 0 }

unfoldable pub traits_ok : ElementTraits → Bool
traits_ok t = t.trivially_copyable || t.nothrow_move_constructible

-- The objects that live in storage of this many bytes as it comes from `operator new[]`.
abbrev pub objects : ElementTraits → (bytes : ℕ) → ℕ
objects t bytes = if t.trivially_copyable then bytes / t.size else 0

-- `SpscQueue::with_capacity`; `allocated` says whether `operator new[]` gives the storage asked for,
-- which is the product in `size_t`. If it does not, it throws, and as the function is noexcept that
-- ends the program, which is `none`; so the test for a null pointer never holds.
unfoldable pub with_capacity {ℓ} :
    {A : Type ℓ}
    → ElementTraits
    → (allocated : Bool) → ℕ
    → Option (Expected (SpscQueue A) SpscError)
unfolding traits_ok
with_capacity traits allocated capacity_pow2 =
    if capacity_pow2 == 0
    then some (unexpected capacity_zero)
    else if not (bit_and capacity_pow2 (capacity_pow2 - 1) == 0)
    then some (unexpected capacity_not_power_of_two)
    else if not (traits_ok traits)
    then some (unexpected element_not_nothrow_movable)
    else if not allocated
    then none
    else some (
        value (record {
          head = 0;
          tail = 0;
          buf = replicate (objects traits (capacity_pow2 * traits.size % size_mod)) none;
          capacity = capacity_pow2;
          mask = capacity_pow2 - 1;
        }))

module _ {ℓ} {A : Type ℓ} where
  -- `(i + 1) & mask_`, in `size_t`
  abbrev pub next_index : SpscQueue A → ℕ → ℕ
  next_index q i = bit_and ((i + 1) % size_mod) q.mask

  -- `buf_[i] = v`, an assignment to an object that lives at `buf_ + i`
  abbrev pub store : List (Option A) → ℕ → A → Option (List (Option A))
  store buf i v = if ltb i (length buf) then some (set buf i (some v)) else none

  -- a read of `buf_[i]`, which has to have a value
  abbrev pub load : List (Option A) → ℕ → Option A
  load buf i = elim (get_elem? buf i) [ none ↦ none | some cell ↦ cell ]

  -- `push(const T&)`
  unfoldable pub push : SpscQueue A → A → Option (Bool × SpscQueue A)
  push q v =
      let n = next_index q q.tail in
      if n == q.head then some (false, q) else elim (store q.buf q.tail v) [
        | none ↦ none
        | some buf' ↦ some (true, record q { buf = buf'; tail = n })
      ]

  -- `push(T&&)`, with what it leaves in its argument.
  unfoldable pub push_move : (A → A) → SpscQueue A → A → Option (Bool × A × SpscQueue A)
  push_move moved q v =
      let n = next_index q q.tail in
      if n == q.head then some (false, v, q) else elim (store q.buf q.tail v) [
        | none ↦ none
        | some buf' ↦ some (true, moved v, record q { buf = buf'; tail = n })
      ]

  -- `pop(T& out)`: the element is what it assigns to `out`, and none is its `false`.
  unfoldable pub pop : (A → A) → SpscQueue A → Option (Option A × SpscQueue A)
  pop moved q = if q.head == q.tail then some (none, q) else elim (load q.buf q.head) [
    | none ↦ none
    | some v ↦
        some
          (some v, record q { buf = set q.buf q.head (some (moved v)); head = next_index q q.head })
  ]

  pub empty : SpscQueue A → Bool
  empty q = q.head == q.tail

  pub full : SpscQueue A → Bool
  full q = next_index q q.tail == q.head

  pub approx_size : SpscQueue A → ℕ
  approx_size q = bit_and (((q.tail + q.capacity) % size_mod + size_mod - q.head) % size_mod) q.mask

  -- `move_from`: the queue that takes over, and what is left of `other`.
  pub move_from : SpscQueue A → SpscQueue A × SpscQueue A
  move_from other = (other, record other { buf = []; capacity = 0; mask = 0 })
