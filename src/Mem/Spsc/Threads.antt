-- ===== src/Mem/Spsc/Threads.antt =====
-- `SpscQueue` under two threads: `push` by the producer and `pop` by the consumer of
-- include/alpha/mem/spsc_queue.hpp, interleaved at each access of the shared memory.
-- Accesses take effect in one order, as the release stores and acquire loads of the indices allow;
-- the cells are the only memory that is not atomic.
pub mod Invariant
pub mod ProducerSteps
pub mod ConsumerSteps
pub mod Linear
pub mod WaitFree
use alpha_smart_router.Base.{ℕ, ◌≡◌, ◌≢◌, Option, none, some, List, [], ◌∷◌, ◌++◌, set}
use alpha_smart_router.Mem.Spsc.{SpscQueue, next_index, store, load}

-- Where the producer stands in `push(v)`, with its locals `t` and `n`.
pub data Producer {ℓ} (A : Type ℓ) : Type ℓ where
  resting : Producer A
  loaded : (v : A) (t n : ℕ) → Producer A  -- `tail_` is read
  granted : (v : A) (t n : ℕ) → Producer A  -- `head_` is read, and differs from `n`
  wrote : (v : A) (n : ℕ) → Producer A  -- `buf_[t]` is written

-- Where the consumer stands in `pop(out)`, with its local `h`.
pub data Consumer {ℓ} (A : Type ℓ) : Type ℓ where
  resting : Consumer A
  loaded : (h : ℕ) → Consumer A  -- `head_` is read
  granted : (h : ℕ) → Consumer A  -- `tail_` is read, and differs from `h`
  took : (v : A) (h : ℕ) → Consumer A  -- `buf_[h]` is moved to `out`

module _ {ℓ} {A : Type ℓ} where
  -- One step of the producer. The list is every element that a `push` has published so far.
  pub data Produce (q : SpscQueue A) (sent : List A)
      : Producer A → SpscQueue A → List A → Producer A → Type ℓ where
    load_tail : (v : A) → Produce q sent resting q sent (loaded v q.tail (next_index q q.tail))
    see_full : {v : A} {t n : ℕ} → n ≡ q.head → Produce q sent (loaded v t n) q sent resting
    see_room : {v : A} {t n : ℕ} → n ≢ q.head → Produce q sent (loaded v t n) q sent (granted v t n)
    write :
        {v : A} {t n : ℕ} {buf : List (Option A)}
        → store q.buf t v ≡ some buf
        → Produce q sent (granted v t n) (record q { buf = buf }) sent (wrote v n)
    publish :
        {v : A} {n : ℕ}
        → Produce q sent (wrote v n) (record q { tail = n }) (sent ++ (v ∷ [])) resting

  -- One step of the consumer. The list is every element that a `pop` has taken so far.
  pub data Consume (moved : A → A) (q : SpscQueue A) (received : List A)
      : Consumer A → SpscQueue A → List A → Consumer A → Type ℓ where
    load_head : Consume moved q received resting q received (loaded q.head)
    see_empty : {h : ℕ} → h ≡ q.tail → Consume moved q received (loaded h) q received resting
    see_element : {h : ℕ} → h ≢ q.tail → Consume moved q received (loaded h) q received (granted h)
    take :
        {v : A} {h : ℕ}
        → load q.buf h ≡ some v
        → Consume moved q received
            (granted h)
            (record q { buf = set q.buf h (some (moved v)) })
            received
            (took v h)
    release :
        {v : A} {h : ℕ}
        → Consume moved q received
            (took v h)
            (record q { head = next_index q h })
            (received ++ (v ∷ []))
            resting

pub record System {ℓ} (A : Type ℓ) : Type ℓ where
  pub queue : SpscQueue A
  pub producer : Producer A
  pub consumer : Consumer A
  pub sent : List A
  pub received : List A

module _ {ℓ} {A : Type ℓ} where
  abbrev pub start : SpscQueue A → System A
  start q = record {
    queue = q;
    producer = Producer.resting;
    consumer = Consumer.resting;
    sent = [];
    received = [];
  }

  pub data Step (moved : A → A) (s : System A) : System A → Type ℓ where
    produce :
        {q : SpscQueue A} {l : List A} {p : Producer A}
        → Produce s.queue s.sent s.producer q l p
        → Step moved s (record s { queue = q; sent = l; producer = p })
    consume :
        {q : SpscQueue A} {l : List A} {c : Consumer A}
        → Consume moved s.queue s.received s.consumer q l c
        → Step moved s (record s { queue = q; received = l; consumer = c })

  pub data Reach (moved : A → A) (q : SpscQueue A) : System A → Type ℓ where
    here : Reach moved q (start q)
    next : {s t : System A} → Reach moved q s → Step moved s t → Reach moved q t
