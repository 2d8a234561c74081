-- ===== src/Mem/Spsc/Threads/Linear.antt =====
-- Where the elements are in an interleaving of one producer and one consumer.
use alpha_smart_router.Base.{
  ℕ, ◌+◌, ◌-◌, ◌%◌, ◌≤◌, ◌≡◌, ◌≢◌, refl, ◌∙◌, ap, sym, Option, some, List, [], ◌∷◌, ◌++◌, arith,
  length, get_elem?, set, subst,
}
use mathlib.Core.List.{append-nil}
use alpha_smart_router.Mem.Spsc.{SpscQueue, store, load}
use alpha_smart_router.Mem.Spsc.Invariant.{Frame, Holds, head-ne-tail}
use alpha_smart_router.Mem.Spsc.Threads.{
  Producer, Consumer, Produce, Consume, System, start, Step, produce, consume, Reach, here, next,
}
use alpha_smart_router.Mem.Spsc.Threads.Invariant.{in_hand, taken, Inv}
use alpha_smart_router.Mem.Spsc.Threads.ProducerSteps.{Produce-Inv}
use alpha_smart_router.Mem.Spsc.Threads.ConsumerSteps.{Consume-Inv, front-cell}

pub length-in_hand {ℓ} :
    {A : Type ℓ} (c : Consumer A) (rest : List A)
    → length (in_hand c ++ rest) ≡ taken c + length rest
length-in_hand Consumer.resting rest = omega arith
length-in_hand (Consumer.loaded h) rest = omega arith
length-in_hand (Consumer.granted h) rest = omega arith
length-in_hand (Consumer.took v h) rest = omega arith

pub Produce-capacity {ℓ} :
    {A : Type ℓ} {q q' : SpscQueue A} {l l' : List A} {p p' : Producer A}
    → Produce q l p q' l' p'
    → q'.capacity ≡ q.capacity
Produce-capacity (Produce.load_tail v) = refl
Produce-capacity (Produce.see_full e) = refl
Produce-capacity (Produce.see_room e) = refl
Produce-capacity (Produce.write e) = refl
Produce-capacity Produce.publish = refl

pub Consume-capacity {ℓ} :
    {A : Type ℓ} (moved : A → A) {q q' : SpscQueue A} {l l' : List A} {c c' : Consumer A}
    → Consume moved q l c q' l' c'
    → q'.capacity ≡ q.capacity
Consume-capacity moved Consume.load_head = refl
Consume-capacity moved (Consume.see_empty e) = refl
Consume-capacity moved (Consume.see_element e) = refl
Consume-capacity moved (Consume.take e) = refl
Consume-capacity moved Consume.release = refl

module _ {ℓ} {A : Type ℓ} (moved : A → A) (q : SpscQueue A) (empty : Holds q []) where
  abbrev pub Good : System A → Type ℓ
  Good s = (rest : List A) × Inv s.queue s.sent s.received s.producer s.consumer rest

  Step-Good : {s t : System A} → Step moved s t → Good s → Good t
  Step-Good {s} (produce m) (rest, inv) = Produce-Inv _ _ _ s.consumer rest m inv
  Step-Good {s} (consume m) (rest, inv) = Consume-Inv moved _ _ _ s.producer rest m inv

  start-Good : Good (start q)
  start-Good = (
    [],
    record {
      split = refl;
      frame = empty.frame;
      cells = λ i w at. ground arith;
      producer = tt;
      consumer = tt;
    },
  )

  pub Reach-Good : {s : System A} → Reach moved q s → Good s
  Reach-Good here = start-Good
  Reach-Good (next r st) = Step-Good st (Reach-Good r)

  Reach-capacity : {s : System A} → Reach moved q s → s.queue.capacity ≡ q.capacity
  Reach-capacity here = refl
  Reach-capacity (next r (produce m)) = Produce-capacity m ∙ Reach-capacity r
  Reach-capacity (next r (consume m)) = Consume-capacity moved m ∙ Reach-capacity r

  -- From a ring that holds nothing, with both threads outside a call, and whatever the
  -- interleaving: the elements received so far are the first of those sent, in order, and at most
  -- `capacity - 1` elements are on the way, so that none is lost, repeated or overtaken.
  pub Reach-fifo :
      {s : System A}
      → Reach moved q s
      → (rest : List A) × (s.sent ≡ s.received ++ rest) × (length rest ≤ q.capacity - 1)
  Reach-fifo {s} r =
      let (rest, inv) = Reach-Good r in
      (
        in_hand s.consumer ++ rest,
        inv.split,
        omega (arith, length-in_hand s.consumer rest, inv.frame.bounded, Reach-capacity r),
      )

  granted-no_race :
      (u : SpscQueue A) (sent received rest : List A) (v : A) (t n h : ℕ)
      → Inv u sent received (Producer.granted v t n) (Consumer.granted h) rest
      → (t ≢ h)
        × ((buf : List (Option A)) × (store u.buf t v ≡ some buf))
        × ((x : A) × (load u.buf h ≡ some x))
  granted-no_race u sent received [] v t n h inv = absurd (omega (arith, inv.consumer.1))
  granted-no_race u sent received (x ∷ xs) v t n h inv = (
    λ same.
        head-ne-tail u _ inv.frame (omega arith) (sym inv.consumer.0 ∙ sym same ∙ inv.producer.0),
    (set u.buf t (some v), ground (arith, inv.frame.valid.stored, inv.frame.valid.tail_in)),
    (x, rw (front-cell moved u sent received _ x xs h inv, load)),
  )

  -- From a ring that holds nothing, with both threads outside a call: whenever the producer is
  -- about to write a cell and the consumer to read one, the one is in the storage, the other holds
  -- an element, and the two are different.
  pub Reach-no_race :
      {s : System A}
      → Reach moved q s
      → (v : A) (t n h : ℕ) → s.producer ≡ Producer.granted v t n
      → s.consumer ≡ Consumer.granted h
      → (t ≢ h)
        × ((buf : List (Option A)) × (store s.queue.buf t v ≡ some buf))
        × ((x : A) × (load s.queue.buf h ≡ some x))
  Reach-no_race {s} r v t n h ep ec =
      let (rest, inv) = Reach-Good r in
      granted-no_race s.queue s.sent s.received rest v t n h (
        subst (λ c. Inv s.queue s.sent s.received (Producer.granted v t n) c rest) ec
          (subst (λ p. Inv s.queue s.sent s.received p s.consumer rest) ep inv))

  pub resting-Holds :
      (u : SpscQueue A) (sent received rest : List A)
      → Inv u sent received Producer.resting Consumer.resting rest
      → Holds u rest
  resting-Holds u sent received rest inv = record {
    frame = subst (Frame u) (omega arith) inv.frame;
    cells = λ i w at.
        ap (λ (j : ℕ). get_elem? u.buf ((u.head + j) % u.capacity)) (omega arith)
        ∙ inv.cells i w (rw append-nil at);
  }

  -- From a ring that holds nothing, with both threads outside a call: whenever neither thread is
  -- inside a call again, what was sent is what was received and then what the queue holds.
  pub Reach-Holds :
      {s : System A}
      → Reach moved q s
      → s.producer ≡ Producer.resting
      → s.consumer ≡ Consumer.resting
      → (rest : List A) × (s.sent ≡ s.received ++ rest) × Holds s.queue rest
  Reach-Holds {s} r ep ec =
      let (rest, inv) = Reach-Good r in
      let still : Inv s.queue s.sent s.received Producer.resting Consumer.resting rest =
        subst (λ c. Inv s.queue s.sent s.received Producer.resting c rest) ec
          (subst (λ p. Inv s.queue s.sent s.received p s.consumer rest) ep inv) in
      (rest, still.split, resting-Holds s.queue s.sent s.received rest still)
