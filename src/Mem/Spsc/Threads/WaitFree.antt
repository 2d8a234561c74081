-- ===== src/Mem/Spsc/Threads/WaitFree.antt =====
-- How many accesses the calls of the two threads make, and whether a thread can make its next.
use alpha_smart_router.Base.{
  ℕ, ◌+◌, ◌*◌, ◌≤◌, ◌≡◌, ◌⊎◌, inl, inr, refl, some, List, [], ◌∷◌, arith, set, ℕ_discrete,
}
use alpha_smart_router.Mem.Spsc.{SpscQueue, store, load}
use alpha_smart_router.Mem.Spsc.Invariant.{Holds}
use alpha_smart_router.Mem.Spsc.Threads.{
  Producer, Consumer, Produce, Consume, System, produce, consume, Reach, here, next,
}
use alpha_smart_router.Mem.Spsc.Threads.Invariant.{Inv}
use alpha_smart_router.Mem.Spsc.Threads.ConsumerSteps.{front-cell}
use alpha_smart_router.Mem.Spsc.Threads.Linear.{Reach-Good}

module _ {ℓ} {A : Type ℓ} where
  -- The accesses that a call has left at most.
  abbrev push_left : Producer A → ℕ
  push_left Producer.resting = 0
  push_left (Producer.loaded v t n) = 3
  push_left (Producer.granted v t n) = 2
  push_left (Producer.wrote v n) = 1

  abbrev pop_left : Consumer A → ℕ
  pop_left Consumer.resting = 0
  pop_left (Consumer.loaded h) = 3
  pop_left (Consumer.granted h) = 2
  pop_left (Consumer.took v h) = 1

  -- 1 for the first access of a call.
  abbrev begins_push :
      {q q' : SpscQueue A} {l l' : List A} {p p' : Producer A} → Produce q l p q' l' p' → ℕ
  begins_push (Produce.load_tail v) = 1
  begins_push m = 0

  push_falls :
      {q q' : SpscQueue A} {l l' : List A} {p p' : Producer A} (m : Produce q l p q' l' p')
      → 1 + push_left p' ≤ push_left p + 4 * begins_push m
  push_falls (Produce.load_tail v) = omega arith
  push_falls (Produce.see_full e) = omega arith
  push_falls (Produce.see_room e) = omega arith
  push_falls (Produce.write e) = omega arith
  push_falls Produce.publish = omega arith

  module _ (moved : A → A) where
    abbrev begins_pop :
        {q q' : SpscQueue A} {l l' : List A} {c c' : Consumer A} → Consume moved q l c q' l' c' → ℕ
    begins_pop Consume.load_head = 1
    begins_pop m = 0

    pop_falls :
        {q q' : SpscQueue A} {l l' : List A} {c c' : Consumer A} (m : Consume moved q l c q' l' c')
        → 1 + pop_left c' ≤ pop_left c + 4 * begins_pop m
    pop_falls Consume.load_head = omega arith
    pop_falls (Consume.see_empty e) = omega arith
    pop_falls (Consume.see_element e) = omega arith
    pop_falls (Consume.take e) = omega arith
    pop_falls Consume.release = omega arith

    -- How many accesses the two threads made on the way, and how many calls they began.
    abbrev pub push_accesses : {q : SpscQueue A} {s : System A} → Reach moved q s → ℕ
    push_accesses here = 0
    push_accesses (next r (produce m)) = push_accesses r + 1
    push_accesses (next r (consume m)) = push_accesses r

    abbrev pub pushes : {q : SpscQueue A} {s : System A} → Reach moved q s → ℕ
    pushes here = 0
    pushes (next r (produce m)) = pushes r + begins_push m
    pushes (next r (consume m)) = pushes r

    abbrev pub pop_accesses : {q : SpscQueue A} {s : System A} → Reach moved q s → ℕ
    pop_accesses here = 0
    pop_accesses (next r (produce m)) = pop_accesses r
    pop_accesses (next r (consume m)) = pop_accesses r + 1

    abbrev pub pops : {q : SpscQueue A} {s : System A} → Reach moved q s → ℕ
    pops here = 0
    pops (next r (produce m)) = pops r
    pops (next r (consume m)) = pops r + begins_pop m

    push_bound :
        {q : SpscQueue A} {s : System A} (r : Reach moved q s)
        → push_accesses r + push_left s.producer ≤ 4 * pushes r
    push_bound here = omega arith
    push_bound (next r (produce m)) = omega (arith, push_bound r, push_falls m)
    push_bound (next r (consume m)) = push_bound r

    pop_bound :
        {q : SpscQueue A} {s : System A} (r : Reach moved q s)
        → pop_accesses r + pop_left s.consumer ≤ 4 * pops r
    pop_bound here = omega arith
    pop_bound (next r (produce m)) = pop_bound r
    pop_bound (next r (consume m)) = omega (arith, pop_bound r, pop_falls m)

    -- Inside a call, a thread can make its next access.
    abbrev pub CanProduce : System A → Producer A → Type ℓ
    CanProduce s p =
        (q : SpscQueue A) × (l : List A) × (p' : Producer A) × Produce s.queue s.sent p q l p'

    abbrev pub CanConsume : System A → Consumer A → Type ℓ
    CanConsume s c =
        (q : SpscQueue A) × (l : List A) × (c' : Consumer A) × Consume moved s.queue s.received c q
          l c'

    can_produce :
        (s : System A) (p : Producer A) (rest : List A)
        → Inv s.queue s.sent s.received p s.consumer rest
        → (p ≡ Producer.resting) ⊎ CanProduce s p
    can_produce s Producer.resting rest inv = inl refl
    can_produce s (Producer.loaded v t n) rest inv = elim (ℕ_discrete n s.queue.head) [
      | yes same ↦ inr (_, _, _, Produce.see_full same)
      | no differ ↦ inr (_, _, _, Produce.see_room differ)
    ]
    can_produce s (Producer.granted v t n) rest inv =
        let buf = set s.queue.buf t (some v) in
        let e : store s.queue.buf t v ≡ some buf =
          ground (arith, inv.producer.0, inv.frame.valid.stored, inv.frame.valid.tail_in) in
        inr (_, _, _, Produce.write e)
    can_produce s (Producer.wrote v n) rest inv = inr (_, _, _, Produce.publish)

    can_consume :
        (s : System A) (c : Consumer A) (rest : List A)
        → Inv s.queue s.sent s.received s.producer c rest
        → (c ≡ Consumer.resting) ⊎ CanConsume s c
    can_consume s Consumer.resting rest inv = inl refl
    can_consume s (Consumer.loaded h) rest inv = elim (ℕ_discrete h s.queue.tail) [
      | yes same ↦ inr (_, _, _, Consume.see_empty same)
      | no differ ↦ inr (_, _, _, Consume.see_element differ)
    ]
    can_consume s (Consumer.granted h) [] inv = absurd (omega (arith, inv.consumer.1))
    can_consume s (Consumer.granted h) (x ∷ xs) inv =
        let cell = front-cell moved s.queue s.sent s.received s.producer x xs h inv in
        let e : load s.queue.buf h ≡ some x = rw (cell, load) refl in inr (_, _, _, Consume.take e)
    can_consume s (Consumer.took v h) rest inv = inr (_, _, _, Consume.release)

    -- From a ring that holds nothing, with both threads outside a call, and whatever the
    -- interleaving: the producer makes at most four accesses for each `push` that it begins, the
    -- consumer at most four for each `pop`; and a thread that is inside a call can make its next
    -- access, whatever the other thread is doing, so that every call ends.
    pub Reach-wait_free :
        {q : SpscQueue A} {s : System A}
        → Holds q []
        → (r : Reach moved q s)
        → (push_accesses r ≤ 4 * pushes r)
          × (pop_accesses r ≤ 4 * pops r)
          × ((s.producer ≡ Producer.resting) ⊎ CanProduce s s.producer)
          × ((s.consumer ≡ Consumer.resting) ⊎ CanConsume s s.consumer)
    Reach-wait_free {q} {s} empty r =
        let (rest, inv) = Reach-Good moved q empty r in
        (
          omega (arith, push_bound r),
          omega (arith, pop_bound r),
          can_produce s s.producer rest inv,
          can_consume s s.consumer rest inv,
        )
