-- ===== src/Mem/Spsc/Threads/Invariant.antt =====
-- What holds of a `SpscQueue` between any two accesses of its two threads.
use alpha_smart_router.Base.{
  ℕ, suc, ◌+◌, ◌%◌, ◌≤◌, ◌<◌, ◌≡◌, ◌∙◌, sym, Option, some, List, [], ◌∷◌, ◌++◌, arith, length,
  get_elem?,
}
use alpha_smart_router.Mem.Spsc.{SpscQueue, next_index}
use alpha_smart_router.Mem.Spsc.Invariant.{Frame}
use alpha_smart_router.Mem.Spsc.Threads.{Producer, Consumer}

module _ {ℓ} {A : Type ℓ} where
  -- The element that the consumer has moved out while `head_` still points at its cell.
  abbrev pub in_hand : Consumer A → List A
  in_hand (Consumer.took v _) = v ∷ []
  in_hand _ = []

  -- The element that the producer has written while `tail_` still points at its cell.
  abbrev pub pending : Producer A → List A
  pending (Producer.wrote v _) = v ∷ []
  pending _ = []

  abbrev pub taken : Consumer A → ℕ
  taken (Consumer.took _ _) = 1
  taken _ = 0

  -- What the locals of a thread say about the queue: `n` elements between the indices, of which
  -- `k` are still to be taken.
  abbrev pub ProducerFits : SpscQueue A → ℕ → Producer A → Type 0
  ProducerFits q n Producer.resting = Unit
  ProducerFits q n (Producer.loaded v t i) = (t ≡ q.tail) × (i ≡ next_index q q.tail)
  ProducerFits q n (Producer.granted v t i) =
      (t ≡ q.tail) × (i ≡ next_index q q.tail) × (suc n < q.capacity)
  ProducerFits q n (Producer.wrote v i) = (i ≡ next_index q q.tail) × (suc n < q.capacity)

  abbrev pub ConsumerFits : SpscQueue A → ℕ → Consumer A → Type 0
  ConsumerFits q k Consumer.resting = Unit
  ConsumerFits q k (Consumer.loaded h) = h ≡ q.head
  ConsumerFits q k (Consumer.granted h) = (h ≡ q.head) × (0 < k)
  ConsumerFits q k (Consumer.took v h) = h ≡ q.head

-- `rest` is what has been sent and not yet been taken.
pub record Inv {ℓ} {A : Type ℓ} (q : SpscQueue A) (sent received : List A) (p : Producer A)
    (c : Consumer A) (rest : List A) : Type ℓ where
  pub split : sent ≡ received ++ (in_hand c ++ rest)
  pub frame : Frame q (taken c + length rest)
  pub cells :
      (i : ℕ) (w : A)
      → get_elem? (rest ++ pending p) i ≡ some w
      → get_elem? q.buf ((q.head + (taken c + i)) % q.capacity) ≡ some (some w)
  pub producer : ProducerFits q (taken c + length rest) p
  pub consumer : ConsumerFits q (length rest) c

module _ {ℓ} {A : Type ℓ} where
  pub refill-Frame :
      (q : SpscQueue A) (n : ℕ) (buf : List (Option A))
      → length buf ≡ length q.buf
      → Frame q n
      → Frame (record q { buf = buf }) n
  refill-Frame q n buf same f = record {
    valid = record {
      log = f.valid.log;
      power = f.valid.power;
      small = f.valid.small;
      masked = f.valid.masked;
      stored = same ∙ f.valid.stored;
      head_in = f.valid.head_in;
      tail_in = f.valid.tail_in;
    };
    placed = f.placed;
    bounded = f.bounded;
  }

  pub ConsumerFits-mono :
      (q q' : SpscQueue A) (k k' : ℕ) (c : Consumer A)
      → q'.head ≡ q.head
      → k ≤ k'
      → ConsumerFits q k c
      → ConsumerFits q' k' c
  ConsumerFits-mono q q' k k' Consumer.resting same le f = tt
  ConsumerFits-mono q q' k k' (Consumer.loaded h) same le f = f ∙ sym same
  ConsumerFits-mono q q' k k' (Consumer.granted h) same le f = (f.0 ∙ sym same, omega arith)
  ConsumerFits-mono q q' k k' (Consumer.took v h) same le f = f ∙ sym same

  pub ProducerFits-mono :
      (q q' : SpscQueue A) (n n' : ℕ) (p : Producer A)
      → q'.tail ≡ q.tail
      → q'.mask ≡ q.mask
      → q'.capacity ≡ q.capacity
      → n' ≤ n
      → ProducerFits q n p
      → ProducerFits q' n' p
  ProducerFits-mono q q' n n' Producer.resting st sm sc le f = tt
  ProducerFits-mono q q' n n' (Producer.loaded v t i) st sm sc le f =
      (f.0 ∙ sym st, rw (st, sm) f.1)
  ProducerFits-mono q q' n n' (Producer.granted v t i) st sm sc le f =
      (f.0 ∙ sym st, rw (st, sm) f.1, omega arith)
  ProducerFits-mono q q' n n' (Producer.wrote v i) st sm sc le f = (rw (st, sm) f.0, omega arith)
