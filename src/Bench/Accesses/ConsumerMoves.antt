-- ===== src/Bench/Accesses/ConsumerMoves.antt =====
-- The accesses of the consumer of `run_one`, one by one.
use alpha_smart_router.Base.{
  ℕ, ◌+◌, ◌%◌, ◌≤◌, ◌<◌, ◌≡◌, inl, inr, refl, ◌∙◌, sym, ap, subst, some, List, [], ◌∷◌, arith,
  length, set, dec_lt, ℕ_discrete,
}
use alpha_smart_router.Mem.Spsc.{size_mod, next_index, load}
use alpha_smart_router.Mem.Spsc.Invariant.{Frame, head-ne-tail}
use alpha_smart_router.Mem.Spsc.Threads.{Consumer, Consume}
use alpha_smart_router.Mem.Spsc.Threads.Invariant.{Inv, taken}
use alpha_smart_router.Mem.Spsc.Threads.ConsumerSteps.{front-cell}
use alpha_smart_router.Bench.{Thread, prod, cons, Payload}
use alpha_smart_router.Bench.Turns.{counted}
use alpha_smart_router.Bench.Accesses.{Run, consume_access}
use alpha_smart_router.Bench.Accesses.Sound.{
  IsSound, IsSound-between, Popping-at, consumed_from, released,
}
use alpha_smart_router.Bench.Accesses.Ranks.{
  push_rank, pop_rank, rank, same, Ready, Nearer, Moved, wraps,
}

module _ {ℓ} {A : Type ℓ} (p : Payload A) (cap n : ℕ) (small : n < size_mod) where
  consumer-Inv :
      (s : Run A) (v : IsSound p cap n s) {c : Consumer A}
      → s.consumer ≡ c
      → Inv s.queue (counted p.make 0 s.i) v.received s.producer c v.rest
  consumer-Inv s v e =
      subst (λ r. Inv s.queue (counted p.make 0 s.i) v.received s.producer r v.rest) e v.inv

  by_consumer :
      (s s' : Run A) (c : Consumer A)
      → s.consumer ≡ c
      → s'.i ≡ s.i
      → s'.consumed ≡ s.consumed
      → s'.producer ≡ s.producer
      → (Ready p cap n s cons → pop_rank s'.consumer + 1 ≤ pop_rank c)
      → Nearer p cap n (same cons) s s'
  by_consumer s s' c e si sc kept nearer = inr (si, sc, ranks)
    where
      ranks : (t : Thread) → Ready p cap n s t → rank s' t + same cons t ≤ rank s t
      ranks prod ready = omega (arith, ap push_rank kept)
      ranks cons ready = subst (λ r. pop_rank s'.consumer + 1 ≤ pop_rank r) (sym e) (nearer ready)

  between :
      (s : Run A) (v : IsSound p cap n s) {c : Consumer A}
      → s.consumer ≡ c
      → s.i ≡ s.consumed + (taken c + length v.rest)
  between s v e =
      subst (λ r. s.i ≡ s.consumed + (taken r + length v.rest)) e (IsSound-between p cap n s v)

  -- With an element between the indices, the consumer does not find the ring empty.
  finds_element :
      (s : Run A) (v : IsSound p cap n s) {h : ℕ}
      → s.consumer ≡ Consumer.loaded h
      → h ≡ s.queue.tail
      → ¬ Ready p cap n s cons
  finds_element s v e drained ready =
      let inv = consumer-Inv s v e in
      head-ne-tail s.queue (length v.rest)
        (subst (λ (k : ℕ). Frame s.queue k) (omega arith) inv.frame)
        (omega (arith, between s v e, ready)) (sym inv.consumer ∙ drained)

  -- The cell that the consumer is about to read holds an element.
  front_cell :
      (s : Run A) (v : IsSound p cap n s) {h : ℕ}
      → s.consumer ≡ Consumer.granted h
      → (x : A) × (load s.queue.buf h ≡ some x)
  front_cell s v {h} e = of v.rest (consumer-Inv s v e)
    where
      of :
          (rest : List A)
          → Inv s.queue (counted p.make 0 s.i) v.received s.producer (Consumer.granted h) rest
          → (x : A) × (load s.queue.buf h ≡ some x)
      of [] inv = absurd (omega (arith, inv.consumer.1))
      of (x ∷ xs) inv =
          (x, rw (front-cell p.moved s.queue _ v.received s.producer x xs h inv, load) refl)

  pub consume_moves :
      (s : Run A) (v : IsSound p cap n s) (c : Consumer A)
      → s.consumer ≡ c
      → Moved p cap n (same cons) s (consume_access p n c s)
  unfolding consume_access
  consume_moves s v Consumer.resting e = elim (dec_lt s.consumed n) [
    | yes more ↦
        let s' : Run A = record s { consumer = Consumer.loaded (s.queue.head) } in
        record {
          after = s';
          defined = ground arith;
          sound = consumed_from p cap n s v e (λ received. Consume.load_head) more;
          nearer = by_consumer s s' Consumer.resting e refl refl refl (λ ready. omega arith);
        }
    | no over ↦ record {
      after = s;
      defined = ground arith;
      sound = v;
      nearer =
          by_consumer s s Consumer.resting e refl refl refl
            (λ ready. absurd (omega (arith, ready, over, v.bounded)));
    }
  ]
  consume_moves s v (Consumer.loaded h) e = elim (ℕ_discrete h s.queue.tail) [
    | yes drained ↦
        let s' : Run A = record s { consumer = Consumer.resting } in
        record {
          after = s';
          defined = ground arith;
          sound = consumed_from p cap n s v e (λ received. Consume.see_empty drained) tt;
          nearer =
              by_consumer s s' (Consumer.loaded h) e refl refl refl
                (λ ready. absurd (finds_element s v e drained ready));
        }
    | no some_left ↦
        let s' : Run A = record s { consumer = Consumer.granted h } in
        record {
          after = s';
          defined = ground arith;
          sound =
              consumed_from p cap n s v e (λ received. Consume.see_element some_left)
                (Popping-at p cap n s v e);
          nearer = by_consumer s s' (Consumer.loaded h) e refl refl refl (λ ready. omega arith);
        }
  ]
  consume_moves s v (Consumer.granted h) e =
      let (x, full) = front_cell s v e in
      let s' : Run A = record s {
        queue = record (s.queue) { buf = set s.queue.buf h (some (p.moved x)) };
        consumer = Consumer.took x h;
      } in
      record {
        after = s';
        defined = rw (full, consume_access) refl;
        sound =
            consumed_from p cap n s v e (λ received. Consume.take full) (Popping-at p cap n s v e);
        nearer = by_consumer s s' (Consumer.granted h) e refl refl refl (λ ready. omega arith);
      }
  consume_moves s v (Consumer.took w h) e =
      let more = Popping-at p cap n s v e in
      record {
        after = record s {
          queue = record (s.queue) { head = next_index s.queue h };
          consumer = Consumer.resting;
          consumed = (s.consumed + 1) % size_mod;
          out = p.used w;
        };
        defined = refl;
        sound = released p cap n s v w h _ e (wraps n s.consumed small more);
        nearer = inl (omega (arith, wraps n s.consumed small more));
      }
