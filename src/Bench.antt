-- ===== src/Bench.antt =====
-- The two threads of `bench::run_one` of benchmarks/src/spsc_bench.cpp over one `SpscQueue`: one
-- turn of a thread is one round of its loop. A turn is a whole call on the queue; a thread that has
-- left its loop does nothing in its turn. The clock and the barrier at the start have no part here.
pub mod Finish
pub mod Report
pub mod Accesses
mod Tests
pub mod Turns
use alpha_smart_router.Base.{
  ℕ, ◌+◌, ◌%◌, ◌^◌, Bool, true, false, Option, none, some, List, [], ◌∷◌, ltb, if◌then◌else◌,
}
use mathlib.Core.Option as Option
use alpha_smart_router.Mem.Spsc.{
  SpscQueue, ElementTraits, value, unexpected, with_capacity, size_mod, push, push_move, pop,
}

pub data Thread : Type 0 where
  prod cons : Thread

-- What the two instances of the template differ in.
pub record Payload {ℓ} (A : Type ℓ) : Type ℓ where
  pub make : ℕ → A  -- the element of an index
  pub by_copy : Bool  -- `std::is_same_v<T, int>`: whether `push` copies its argument
  pub moved : A → A  -- what a move leaves behind
  pub used : A → A  -- what the consumer makes of its variable after a `pop`
  pub initial : A  -- the consumer's variable before the loop

abbrev pub int_payload : Payload ℕ
int_payload = record {
  make = λ i. i % 2 ^ 32;
  by_copy = true;
  moved = λ v. v;
  used = λ v. v;
  initial = 0;
}

-- `std::unique_ptr<int>`: what it points to, or `none` for null.
abbrev pub pointer_payload : Payload (Option ℕ)
pointer_payload = record {
  make = λ i. some (i % 2 ^ 32);
  by_copy = false;
  moved = λ v. none;
  used = λ v. none;
  initial = none;
}

-- The variables of the two threads: the queue, the producer's `i`, the shared `consumed`, and the
-- consumer's `v` or `p`.
pub record Run {ℓ} (A : Type ℓ) : Type ℓ where
  pub queue : SpscQueue A
  pub i : ℕ
  pub consumed : ℕ
  pub out : A

-- What becomes of a run.
pub data Outcome {ℓ} (A : Type ℓ) : Type ℓ where
  aborted : Outcome A
  left : Run A → Outcome A

module _ {ℓ} {A : Type ℓ} (p : Payload A) where
  -- `q->push(...)` with the element of an index.
  pub enqueue : SpscQueue A → ℕ → Option (Bool × SpscQueue A)
  enqueue q i =
      if p.by_copy
      then push q (p.make i)
      else Option.map (λ (r : Bool × A × SpscQueue A). (r.0, r.2)) (push_move p.moved q (p.make i))

  pub produce : (n : ℕ) → Run A → Option (Run A)
  produce n s =
      if ltb s.i n
      then elim (enqueue s.queue s.i) [
        | none ↦ none
        | some (true, q) ↦ some (record s { queue = q; i = (s.i + 1) % size_mod })
        | some (false, q) ↦ some (record s { queue = q })
      ]
      else some s

  pub consume : (n : ℕ) → Run A → Option (Run A)
  consume n s =
      if ltb s.consumed n
      then elim (pop p.moved s.queue) [
        | none ↦ none
        | some (some v, q) ↦
            some (record s { queue = q; consumed = (s.consumed + 1) % size_mod; out = p.used v })
        | some (none, q) ↦ some (record s { queue = q })
      ]
      else some s

  unfoldable pub turn : (n : ℕ) → Thread → Run A → Option (Run A)
  turn n prod s = produce n s
  turn n cons s = consume n s

  -- The turns that the scheduler gives, in order; `none` if one of them is undefined behaviour.
  unfoldable pub turns : (n : ℕ) → List Thread → Run A → Option (Run A)
  turns n [] s = some s
  turns n (t ∷ ts) s = elim (turn n t s) [ none ↦ none | some s' ↦ turns n ts s' ]

  -- `run_one` after the turns given; `none` if one of them is undefined behaviour, or if there is no
  -- storage, which ends the program.
  pub run_one :
      ElementTraits → (allocated : Bool) → (capacity_pow2 n : ℕ) → List Thread → Option (Outcome A)
  run_one traits allocated capacity_pow2 n ts =
      elim (with_capacity {A = A} traits allocated capacity_pow2) [
        | none ↦ none
        | some (unexpected _) ↦ some aborted
        | some (value q) ↦
            Option.map left
              (turns n ts (record { queue = q; i = 0; consumed = 0; out = p.initial }))
      ]
