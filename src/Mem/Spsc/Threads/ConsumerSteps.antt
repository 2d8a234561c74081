-- ===== src/Mem/Spsc/Threads/ConsumerSteps.antt =====
-- The consumer's steps, through `pop`, and the invariant of the two threads.
use alpha_smart_router.Base.{
  ℕ, suc, ◌+◌, ◌%◌, ◌<◌, ◌≡◌, ◌≢◌, refl, ◌∙◌, ap, sym, some, List, [], ◌∷◌, ◌++◌, arith, length,
  get_elem?, set, length-set, length-append, get_elem?-set_ne, get_elem?-lt, ℕ_discrete, subst,
}
use mathlib.Core.List.{append_assoc}
use alpha_smart_router.Mem.Spsc.{SpscQueue, next_index, load}
use alpha_smart_router.Mem.Spsc.Invariant.{
  Frame, next_index_lem, slot-suc, slot_head, head-ne-slot, head-eq-tail, shrink-Frame,
}
use alpha_smart_router.Mem.Spsc.Threads.{Producer, Consumer, Consume}
use alpha_smart_router.Mem.Spsc.Threads.Invariant.{
  pending, ProducerFits, Inv, refill-Frame, ProducerFits-mono,
}

module _ {ℓ} {A : Type ℓ} (moved : A → A) where
  -- Every element between the indices, the pending one included, has a slot of its own.
  slot-in :
      (q : SpscQueue A) (n : ℕ) (p : Producer A) (xs : List A) (i : ℕ) {w : A}
      → Frame q n
      → ProducerFits q n p
      → n ≡ suc (length xs)
      → get_elem? (xs ++ pending p) i ≡ some w
      → suc i < q.capacity
  slot-in q n Producer.resting xs i f fits e at =
      omega (arith, f.bounded, get_elem?-lt _ i at, length-append xs [])
  slot-in q n (Producer.loaded v t j) xs i f fits e at =
      omega (arith, f.bounded, get_elem?-lt _ i at, length-append xs [])
  slot-in q n (Producer.granted v t j) xs i f fits e at =
      omega (arith, f.bounded, get_elem?-lt _ i at, length-append xs [])
  slot-in q n (Producer.wrote v j) xs i f fits e at =
      omega (arith, fits, get_elem?-lt _ i at, length-append xs (v ∷ []))

  -- The cell that the consumer is about to read holds the oldest element.
  pub front-cell :
      (q : SpscQueue A) (sent received : List A) (p : Producer A) (x : A) (xs : List A) (h : ℕ)
      → Inv q sent received p (Consumer.granted h) (x ∷ xs)
      → get_elem? q.buf h ≡ some (some x)
  front-cell q sent received p x xs h inv =
      ap (get_elem? q.buf) (inv.consumer.0 ∙ sym (slot_head q _ inv.frame) ∙ same)
      ∙ inv.cells 0 x refl
    where
      same : (q.head + 0) % q.capacity ≡ (q.head + (0 + 0)) % q.capacity
      same = refl

  -- Taking moves the oldest element out of its cell and leaves the others.
  take-Inv :
      (q : SpscQueue A) (sent received : List A) (p : Producer A) (x : A) (xs : List A) (v : A)
      (h : ℕ)
      → load q.buf h ≡ some v
      → Inv q sent received p (Consumer.granted h) (x ∷ xs)
      → Inv (record q { buf = set q.buf h (some (moved v)) }) sent received p (Consumer.took v h) xs
  take-Inv q sent received p x xs v h e inv = record {
    split = inv.split ∙ ap (λ (y : A). received ++ (y ∷ xs)) oldest;
    frame =
        refill-Frame q _ _ (length-set q.buf h (some (moved v)))
          (subst (Frame q) counted inv.frame);
    cells = cell;
    producer =
        ProducerFits-mono q (record q { buf = set q.buf h (some (moved v)) }) _ _ p refl refl refl
          (omega arith) inv.producer;
    consumer = inv.consumer.0;
  }
    where
      counted : 0 + length (x ∷ xs) ≡ 1 + length xs
      counted = omega arith

      oldest : x ≡ v
      oldest = let held = front-cell q sent received p x xs h inv in ground arith

      cell :
          (i : ℕ) (w : A)
          → get_elem? (xs ++ pending p) i ≡ some w
          → get_elem? (set q.buf h (some (moved v))) ((q.head + (1 + i)) % q.capacity)
            ≡ some (some w)
      cell i w at =
          get_elem?-set_ne q.buf (some (moved v)) apart
          ∙ ap (λ (j : ℕ). get_elem? q.buf ((q.head + j) % q.capacity)) (omega arith)
          ∙ inv.cells (suc i) w at
        where
          room : suc i < q.capacity
          room = slot-in q _ p xs i inv.frame inv.producer (omega arith) at

          apart : h ≢ (q.head + (1 + i)) % q.capacity
          apart same =
              head-ne-slot q _ inv.frame i room (
                sym inv.consumer.0 ∙ same ∙ ap (λ (j : ℕ). (q.head + j) % q.capacity) (omega arith))

  -- Releasing advances the head past the cell that was emptied.
  release-Inv :
      (q : SpscQueue A) (sent received : List A) (p : Producer A) (rest : List A) (v : A) (h : ℕ)
      → Inv q sent received p (Consumer.took v h) rest
      → Inv (record q { head = next_index q h }) sent (received ++ (v ∷ [])) p Consumer.resting rest
  release-Inv q sent received p rest v h inv = record {
    split = inv.split ∙ simp append_assoc;
    frame = rw inv.consumer (
        subst (Frame (record q { head = next_index q q.head })) (omega arith)
          (shrink-Frame q (length rest) q.buf refl (subst (Frame q) (omega arith) inv.frame)));
    cells = λ i w at. rw inv.consumer (rw head_next (slot i ∙ inv.cells i w at));
    producer =
        ProducerFits-mono q (record q { head = next_index q h }) _ _ p refl refl refl (omega arith)
          inv.producer;
    consumer = tt;
  }
    where
      head_next : next_index q q.head ≡ (q.head + 1) % q.capacity
      head_next = next_index_lem q q.head inv.frame.valid inv.frame.valid.head_in

      slot :
          (i : ℕ)
          → get_elem? q.buf (((q.head + 1) % q.capacity + (0 + i)) % q.capacity)
            ≡ get_elem? q.buf ((q.head + (1 + i)) % q.capacity)
      slot i = ap (get_elem? q.buf) (
          slot-suc q.capacity q.head (0 + i)
          ∙ ap (λ (j : ℕ). (q.head + j) % q.capacity) (omega arith))

  -- A step of the consumer keeps the invariant.
  pub Consume-Inv :
      (q : SpscQueue A) (sent received : List A) (p : Producer A) (rest : List A) {c : Consumer A}
      {q' : SpscQueue A} {received' : List A} {c' : Consumer A}
      → Consume moved q received c q' received' c'
      → Inv q sent received p c rest
      → (rest' : List A) × Inv q' sent received' p c' rest'
  Consume-Inv q sent received p rest Consume.load_head inv = (
    rest,
    record {
      split = inv.split;
      frame = inv.frame;
      cells = inv.cells;
      producer = inv.producer;
      consumer = refl;
    },
  )
  Consume-Inv q sent received p rest (Consume.see_empty e) inv = (
    rest,
    record {
      split = inv.split;
      frame = inv.frame;
      cells = inv.cells;
      producer = inv.producer;
      consumer = tt;
    },
  )
  Consume-Inv q sent received p rest (Consume.see_element e) inv = (
    rest,
    record {
      split = inv.split;
      frame = inv.frame;
      cells = inv.cells;
      producer = inv.producer;
      consumer = (inv.consumer, left);
    },
  )
    where
      left : 0 < length rest
      left = elim (ℕ_discrete (length rest) 0) [
        | yes none_left ↦ absurd (e (inv.consumer ∙ head-eq-tail q _ inv.frame (omega arith)))
        | no more ↦ omega arith
      ]
  Consume-Inv q sent received p [] (Consume.take e) inv = absurd (omega (arith, inv.consumer.1))
  Consume-Inv q sent received p (x ∷ xs) (Consume.take {v} {h} e) inv =
      (xs, take-Inv q sent received p x xs v h e inv)
  Consume-Inv q sent received p rest (Consume.release {v} {h}) inv =
      (rest, release-Inv q sent received p rest v h inv)
