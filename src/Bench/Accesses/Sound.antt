-- ===== src/Bench/Accesses/Sound.antt =====
-- What holds of `run_one` between any two accesses of its threads.
use alpha_smart_router.Base.{
  ℕ, zero, suc, ◌+◌, ◌≤◌, ◌<◌, ◌≡◌, ◌∙◌, sym, ap, subst, some, List, [], ◌∷◌, ◌++◌, arith, length,
  length-append, get_elem?, get_elem?-append_length,
}
use mathlib.Core.Logic.{Lift}
use alpha_smart_router.Mem.Spsc.{SpscQueue, next_index}
use alpha_smart_router.Mem.Spsc.Threads.{Producer, Consumer, Produce, Consume}
use alpha_smart_router.Mem.Spsc.Threads.Invariant.{Inv, in_hand, taken}
use alpha_smart_router.Mem.Spsc.Threads.ProducerSteps.{Produce-Inv}
use alpha_smart_router.Mem.Spsc.Threads.ConsumerSteps.{Consume-Inv}
use alpha_smart_router.Mem.Spsc.Threads.Linear.{length-in_hand, Produce-capacity, Consume-capacity}
use alpha_smart_router.Bench.{Payload}
use alpha_smart_router.Bench.Turns.{counted, length-counted, counted-suc}
use alpha_smart_router.Bench.Accesses.{Run}

get_elem?-counted {ℓ} :
    {A : Type ℓ} (f : ℕ → A) (from n k : ℕ) {v : A}
    → get_elem? (counted f from n) k ≡ some v
    → v ≡ f (from + k)
unfolding counted
get_elem?-counted f from zero k e = cc
get_elem?-counted f from (suc n) zero {v} e =
    let same : v ≡ f from = cc in same ∙ ap f (omega arith)
get_elem?-counted f from (suc n) (suc k) e =
    get_elem?-counted f (suc from) n k e ∙ ap f (omega arith)

module _ {ℓ} {A : Type ℓ} (p : Payload A) (cap n : ℕ) where
  -- What a producer inside a call is pushing.
  abbrev pub Making : ℕ → Producer A → Type ℓ
  Making i Producer.resting = Lift {0, ℓ} Unit
  Making i (Producer.loaded v t m) = (v ≡ p.make i) × (i < n)
  Making i (Producer.granted v t m) = (v ≡ p.make i) × (i < n)
  Making i (Producer.wrote v m) = (v ≡ p.make i) × (i < n)

  abbrev pub Popping : ℕ → Consumer A → Type 0
  Popping consumed Consumer.resting = Unit
  Popping consumed c = consumed < n

  -- The elements made so far are those sent.
  pub record IsSound (s : Run A) : Type ℓ where
    pub received : List A
    pub rest : List A
    pub inv : Inv s.queue (counted p.make 0 s.i) received s.producer s.consumer rest
    pub popped : length received ≡ s.consumed
    pub sized : s.queue.capacity ≡ cap
    pub bounded : s.i ≤ n
    pub making : Making s.i s.producer
    pub popping : Popping s.consumed s.consumer
    pub last : (c : ℕ) → s.consumed ≡ suc c → s.out ≡ p.used (p.make c)

  -- What lies between the two indices.
  pub IsSound-between :
      (s : Run A) (v : IsSound s) → s.i ≡ s.consumed + (taken s.consumer + length v.rest)
  IsSound-between s v = omega (
    arith,
    ap (λ (l : List A). length l) v.inv.split,
    length-counted p.make 0 s.i,
    length-append v.received (in_hand s.consumer ++ v.rest),
    length-in_hand s.consumer v.rest,
    v.popped,
  )

  -- An access of the producer that publishes nothing.
  pub produced :
      (s : Run A) (v : IsSound s) {pr pr' : Producer A} {q : SpscQueue A}
      → s.producer ≡ pr
      → Produce s.queue (counted p.make 0 s.i) pr q (counted p.make 0 s.i) pr'
      → Making s.i pr'
      → IsSound (record s { queue = q; producer = pr' })
  produced s v {pr} {pr'} {q} e m makes =
      let sent = counted p.make 0 s.i in
      let (rest, inv) =
        Produce-Inv _ _ v.received s.consumer v.rest m
          (subst (λ r. Inv s.queue sent v.received r s.consumer v.rest) e v.inv) in
      record {
        received = v.received;
        rest = rest;
        inv = inv;
        popped = v.popped;
        sized = Produce-capacity m ∙ v.sized;
        bounded = v.bounded;
        making = makes;
        popping = v.popping;
        last = v.last;
      }

  pub Making-at : (s : Run A) (v : IsSound s) {pr : Producer A} → s.producer ≡ pr → Making s.i pr
  Making-at s v e = subst (Making s.i) e v.making

  pub Popping-at :
      (s : Run A) (v : IsSound s) {c : Consumer A} → s.consumer ≡ c → Popping s.consumed c
  Popping-at s v e = subst (Popping s.consumed) e v.popping

  -- The access that publishes the element.
  pub published :
      (s : Run A) (v : IsSound s) (w : A) (m k : ℕ)
      → s.producer ≡ Producer.wrote w m
      → k ≡ suc s.i
      → IsSound
          (record s { queue = record (s.queue) { tail = m }; producer = Producer.resting; i = k })
  published s v w m k e next =
      let sent = counted p.make 0 s.i in
      let (made, more) = Making-at s v e in
      let (rest, inv) =
        Produce-Inv _ _ v.received s.consumer v.rest Produce.publish
          (subst (λ r. Inv s.queue sent v.received r s.consumer v.rest) e v.inv) in
      let grown : sent ++ (w ∷ []) ≡ counted p.make 0 k =
        ap (λ x. sent ++ (x ∷ [])) made
        ∙ ap (λ (j : ℕ). sent ++ (p.make j ∷ [])) (omega arith)
        ∙ counted-suc p.make 0 s.i
        ∙ ap (counted p.make 0) (sym next) in
      record {
        received = v.received;
        rest = rest;
        inv =
            subst
              (λ l.
                Inv (record (s.queue) { tail = m }) l v.received Producer.resting s.consumer rest)
              grown inv;
        popped = v.popped;
        sized = v.sized;
        bounded = omega (arith, next, more);
        making = record { lower = tt };
        popping = v.popping;
        last = v.last;
      }

  -- An access of the consumer that gives no cell back.
  pub consumed_from :
      (s : Run A) (v : IsSound s) {c c' : Consumer A} {q : SpscQueue A}
      → s.consumer ≡ c
      → ((received : List A) → Consume p.moved s.queue received c q received c')
      → Popping s.consumed c'
      → IsSound (record s { queue = q; consumer = c' })
  consumed_from s v {c} {c'} {q} e m pops =
      let sent = counted p.make 0 s.i in
      let (rest, inv) =
        Consume-Inv p.moved _ sent v.received s.producer v.rest (m v.received)
          (subst (λ r. Inv s.queue sent v.received s.producer r v.rest) e v.inv) in
      record {
        received = v.received;
        rest = rest;
        inv = inv;
        popped = v.popped;
        sized = Consume-capacity p.moved (m v.received) ∙ v.sized;
        bounded = v.bounded;
        making = v.making;
        popping = pops;
        last = v.last;
      }

  -- The access that gives the cell back.
  pub released :
      (s : Run A) (v : IsSound s) (w : A) (h k : ℕ)
      → s.consumer ≡ Consumer.took w h
      → k ≡ suc s.consumed
      → IsSound (record s {
        queue = record (s.queue) { head = next_index s.queue h };
        consumer = Consumer.resting;
        consumed = k;
        out = p.used w;
      })
  released s v w h k e next =
      let sent = counted p.make 0 s.i in
      let before = subst (λ r. Inv s.queue sent v.received s.producer r v.rest) e v.inv in
      let (rest, inv) =
        Consume-Inv p.moved _ sent v.received s.producer v.rest Consume.release before in
      let oldest : get_elem? sent (length v.received) ≡ some w =
        ap (λ l. get_elem? l (length v.received)) before.split
        ∙ get_elem?-append_length v.received v.rest w in
      let made : w ≡ p.make s.consumed =
        get_elem?-counted p.make 0 s.i (length v.received) oldest
        ∙ ap p.make (omega (arith, v.popped)) in
      record {
        received = v.received ++ (w ∷ []);
        rest = rest;
        inv = inv;
        popped = omega (arith, length-append v.received (w ∷ []), v.popped, next);
        sized = v.sized;
        bounded = v.bounded;
        making = v.making;
        popping = tt;
        last = λ c last. ap p.used (made ∙ ap p.make (omega (arith, next, last)));
      }
