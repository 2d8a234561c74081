-- ===== src/Mem/Spsc/Threads/ProducerSteps.antt =====
-- The producer's steps, through `push`, and the invariant of the two threads.
use alpha_smart_router.Base.{
  ℕ, suc, ◌+◌, ◌%◌, ◌<◌, ◌≡◌, refl, ◌∙◌, ap, Option, some, List, [], ◌∷◌, ◌++◌, arith, length,
  get_elem?, set, length-set, length-append, get_elem?-set_self, get_elem?-set_ne, get_elem?-snoc,
  inl, inr, dec_lt, subst,
}
use mathlib.Core.List.{append-nil, append_assoc}
use alpha_smart_router.Mem.Spsc.{SpscQueue, next_index, store}
use alpha_smart_router.Mem.Spsc.Invariant.{Frame, tail_next-eq-head, tail-ne-slot, grow-Frame}
use alpha_smart_router.Mem.Spsc.Threads.{Producer, Consumer, Produce}
use alpha_smart_router.Mem.Spsc.Threads.Invariant.{taken, Inv, refill-Frame, ConsumerFits-mono}

module _ {ℓ} {A : Type ℓ} where
  write-set :
      (buf : List (Option A)) (t : ℕ) (v : A) {buf' : List (Option A)}
      → store buf t v ≡ some buf'
      → buf' ≡ set buf t (some v)
  write-set buf t v e = ground arith

  -- The write fills the cell at the tail and no other.
  write-Inv :
      (q : SpscQueue A) (sent received : List A) (c : Consumer A) (rest : List A) (v : A) (t n : ℕ)
      {buf : List (Option A)}
      → store q.buf t v ≡ some buf
      → Inv q sent received (Producer.granted v t n) c rest
      → Inv (record q { buf = buf }) sent received (Producer.wrote v n) c rest
  write-Inv q sent received c rest v t n {buf} e inv = record {
    split = inv.split;
    frame = refill-Frame q _ buf (rw filled (length-set q.buf q.tail (some v))) inv.frame;
    cells = λ i w at. rw filled (cell i w at);
    producer = (inv.producer.1, inv.producer.2);
    consumer = ConsumerFits-mono q (record q { buf = buf }) _ _ c refl (omega arith) inv.consumer;
  }
    where
      filled : buf ≡ set q.buf q.tail (some v)
      filled = write-set q.buf t v e ∙ ap (λ (j : ℕ). set q.buf j (some v)) inv.producer.0

      cell :
          (i : ℕ) (w : A)
          → get_elem? (rest ++ (v ∷ [])) i ≡ some w
          → get_elem? (set q.buf q.tail (some v)) ((q.head + (taken c + i)) % q.capacity)
            ≡ some (some w)
      cell i w at = elim (get_elem?-snoc rest v i at) [
        | inl (lt, held) ↦
            get_elem?-set_ne q.buf (some v) (tail-ne-slot q _ inv.frame (taken c + i) (omega arith))
            ∙ inv.cells i w (rw append-nil held)
        | inr (last, same) ↦
            rw (last, ← inv.frame.placed, ← same)
              (get_elem?-set_self q.buf q.tail (some v)
                (omega (arith, inv.frame.valid.stored, inv.frame.valid.tail_in)))
      ]

  -- Publishing makes the pending element part of the queue.
  publish-Inv :
      (q : SpscQueue A) (sent received : List A) (c : Consumer A) (rest : List A) (v : A) (n : ℕ)
      → Inv q sent received (Producer.wrote v n) c rest
      → Inv
          (record q { tail = n })
          (sent ++ (v ∷ []))
          received
          Producer.resting
          c
          (rest ++ (v ∷ []))
  publish-Inv q sent received c rest v n inv = record {
    split = rw inv.split (simp append_assoc);
    frame = rw inv.producer.0 (
        subst (Frame (record q { tail = next_index q q.tail }))
          (omega (arith, length-append rest (v ∷ [])))
          (grow-Frame q _ inv.frame q.buf refl inv.producer.1));
    cells = λ i w at. inv.cells i w (rw append-nil at at);
    producer = tt;
    consumer =
        ConsumerFits-mono q (record q { tail = n }) _ _ c refl
          (omega (arith, length-append rest (v ∷ []))) inv.consumer;
  }

  -- A step of the producer keeps the invariant.
  pub Produce-Inv :
      (q : SpscQueue A) (sent received : List A) (c : Consumer A) (rest : List A) {p : Producer A}
      {q' : SpscQueue A} {sent' : List A} {p' : Producer A}
      → Produce q sent p q' sent' p'
      → Inv q sent received p c rest
      → (rest' : List A) × Inv q' sent' received p' c rest'
  Produce-Inv q sent received c rest (Produce.load_tail v) inv = (
    rest,
    record {
      split = inv.split;
      frame = inv.frame;
      cells = inv.cells;
      producer = (refl, refl);
      consumer = inv.consumer;
    },
  )
  Produce-Inv q sent received c rest (Produce.see_full e) inv = (
    rest,
    record {
      split = inv.split;
      frame = inv.frame;
      cells = inv.cells;
      producer = tt;
      consumer = inv.consumer;
    },
  )
  Produce-Inv q sent received c rest (Produce.see_room e) inv = (
    rest,
    record {
      split = inv.split;
      frame = inv.frame;
      cells = inv.cells;
      producer = (inv.producer.0, inv.producer.1, room);
      consumer = inv.consumer;
    },
  )
    where
      room : suc (taken c + length rest) < q.capacity
      room = elim (dec_lt (suc (taken c + length rest)) q.capacity) [
        | yes lt ↦ lt
        | no full ↦ absurd (
            e (inv.producer.1 ∙ tail_next-eq-head q _ inv.frame (omega (arith, inv.frame.bounded))))
      ]
  Produce-Inv q sent received c rest (Produce.write e) inv =
      (rest, write-Inv q sent received c rest _ _ _ e inv)
  Produce-Inv q sent received c rest (Produce.publish {v}) inv =
      (rest ++ (v ∷ []), publish-Inv q sent received c rest v _ inv)
