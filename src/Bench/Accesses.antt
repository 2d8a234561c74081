-- ===== src/Bench/Accesses.antt =====
-- The two threads of `bench::run_one` of benchmarks/src/spsc_bench.cpp, at each of their accesses of
-- the `SpscQueue` that they share.
pub mod Sound
pub mod Ranks
pub mod ProducerMoves
pub mod ConsumerMoves
pub mod Rounds
pub mod Finish
mod Tests
use alpha_smart_router.Base.{
  ℕ, ◌+◌, ◌%◌, Bool, Option, none, some, List, [], ◌∷◌, ltb, ◌==◌, if◌then◌else◌, set,
}
use mathlib.Core.Option as Option
use alpha_smart_router.Mem.Spsc.{
  SpscQueue, ElementTraits, Expected, SpscError, value, unexpected, with_capacity, size_mod,
  next_index, store, load,
}
use alpha_smart_router.Mem.Spsc.Threads.{Producer, Consumer}
use alpha_smart_router.Bench.{Thread, prod, cons, Payload}

-- The variables of the two threads, and where each stands in its call.
pub record Run {ℓ} (A : Type ℓ) : Type ℓ where
  pub queue : SpscQueue A
  pub producer : Producer A
  pub consumer : Consumer A
  pub i : ℕ
  pub consumed : ℕ
  pub out : A

pub data Outcome {ℓ} (A : Type ℓ) : Type ℓ where
  aborted : Outcome A
  left : Run A → Outcome A

module _ {ℓ} {A : Type ℓ} (p : Payload A) where
  -- The producer's next access: of the test of its loop and the read of `tail_`, of the read of
  -- `head_`, of the write of the cell, and of the write of `tail_`.
  unfoldable pub produce_access : (n : ℕ) → Producer A → Run A → Option (Run A)
  produce_access n Producer.resting s =
      if ltb s.i n
      then some (record s {
        producer = Producer.loaded (p.make s.i) s.queue.tail (next_index s.queue s.queue.tail);
      })
      else some s
  produce_access n (Producer.loaded v t m) s =
      if m == s.queue.head
      then some (record s { producer = Producer.resting })
      else some (record s { producer = Producer.granted v t m })
  produce_access n (Producer.granted v t m) s = elim (store s.queue.buf t v) [
    | none ↦ none
    | some buf ↦
        some (record s { queue = record (s.queue) { buf = buf }; producer = Producer.wrote v m })
  ]
  produce_access n (Producer.wrote v m) s = some (record s {
    queue = record (s.queue) { tail = m };
    producer = Producer.resting;
    i = (s.i + 1) % size_mod;
  })

  -- The consumer's next access; its variable is set when the call returns.
  unfoldable pub consume_access : (n : ℕ) → Consumer A → Run A → Option (Run A)
  consume_access n Consumer.resting s =
      if ltb s.consumed n
      then some (record s { consumer = Consumer.loaded (s.queue.head) })
      else some s
  consume_access n (Consumer.loaded h) s =
      if h == s.queue.tail
      then some (record s { consumer = Consumer.resting })
      else some (record s { consumer = Consumer.granted h })
  consume_access n (Consumer.granted h) s = elim (load s.queue.buf h) [
    | none ↦ none
    | some v ↦ some (record s {
      queue = record (s.queue) { buf = set s.queue.buf h (some (p.moved v)) };
      consumer = Consumer.took v h;
    })
  ]
  consume_access n (Consumer.took v h) s = some (record s {
    queue = record (s.queue) { head = next_index s.queue h };
    consumer = Consumer.resting;
    consumed = (s.consumed + 1) % size_mod;
    out = p.used v;
  })

  unfoldable pub access : (n : ℕ) → Thread → Run A → Option (Run A)
  access n prod s = produce_access n s.producer s
  access n cons s = consume_access n s.consumer s

  unfoldable pub accesses : (n : ℕ) → List Thread → Run A → Option (Run A)
  accesses n [] s = some s
  accesses n (t ∷ ts) s = elim (access n t s) [ none ↦ none | some s' ↦ accesses n ts s' ]

  -- The start of the loops, over a queue.
  abbrev pub at_start : SpscQueue A → Run A
  at_start q = record {
    queue = q;
    producer = Producer.resting;
    consumer = Consumer.resting;
    i = 0;
    consumed = 0;
    out = p.initial;
  }

  -- `run_one` after the accesses of the threads given, in order; `none` if one of them is undefined
  -- behaviour, or if there is no storage, which ends the program.
  unfoldable pub run_one :
      ElementTraits → (allocated : Bool) → (capacity_pow2 n : ℕ) → List Thread → Option (Outcome A)
  run_one traits allocated capacity_pow2 n ts =
      elim (with_capacity {A = A} traits allocated capacity_pow2) [
        | none ↦ none
        | some (unexpected _) ↦ some aborted
        | some (value q) ↦ Option.map left (accesses n ts (at_start q))
      ]
