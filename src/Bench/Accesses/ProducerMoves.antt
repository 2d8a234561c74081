-- ===== src/Bench/Accesses/ProducerMoves.antt =====
-- The accesses of the producer of `run_one`, one by one.
use alpha_smart_router.Base.{
  ℕ, ◌+◌, ◌%◌, ◌≤◌, ◌<◌, ◌≡◌, inl, inr, refl, ◌∙◌, sym, ap, subst, some, arith, length, set, dec_lt,
  ℕ_discrete,
}
use alpha_smart_router.Mem.Spsc.{size_mod, next_index, store}
use alpha_smart_router.Mem.Spsc.Invariant.{tail_next-ne-head}
use alpha_smart_router.Mem.Spsc.Threads.{Producer, Produce}
use alpha_smart_router.Mem.Spsc.Threads.Invariant.{Inv, taken}
use alpha_smart_router.Bench.{Thread, prod, cons, Payload}
use alpha_smart_router.Bench.Turns.{counted}
use alpha_smart_router.Bench.Accesses.{Run, produce_access}
use alpha_smart_router.Bench.Accesses.Sound.{
  IsSound, IsSound-between, produced, Making-at, published,
}
use alpha_smart_router.Bench.Accesses.Ranks.{
  push_rank, pop_rank, rank, same, Ready, Nearer, Moved, wraps,
}

module _ {ℓ} {A : Type ℓ} (p : Payload A) (cap n : ℕ) (small : n < size_mod) where
  producer-Inv :
      (s : Run A) (v : IsSound p cap n s) {pr : Producer A}
      → s.producer ≡ pr
      → Inv s.queue (counted p.make 0 s.i) v.received pr s.consumer v.rest
  producer-Inv s v e =
      subst (λ r. Inv s.queue (counted p.make 0 s.i) v.received r s.consumer v.rest) e v.inv

  -- The producer's part of an access of the producer.
  by_producer :
      (s s' : Run A) (pr : Producer A)
      → s.producer ≡ pr
      → s'.i ≡ s.i
      → s'.consumed ≡ s.consumed
      → s'.consumer ≡ s.consumer
      → (Ready p cap n s prod → push_rank s'.producer + 1 ≤ push_rank pr)
      → Nearer p cap n (same prod) s s'
  by_producer s s' pr e si sc kept nearer = inr (si, sc, ranks)
    where
      ranks : (t : Thread) → Ready p cap n s t → rank s' t + same prod t ≤ rank s t
      ranks prod ready = subst (λ r. push_rank s'.producer + 1 ≤ push_rank r) (sym e) (nearer ready)
      ranks cons ready = omega (arith, ap pop_rank kept)

  -- With room for one more, the producer does not find the ring full.
  finds_room :
      (s : Run A) (v : IsSound p cap n s) {w : A} {t m : ℕ}
      → s.producer ≡ Producer.loaded w t m
      → m ≡ s.queue.head
      → ¬ Ready p cap n s prod
  finds_room s v e full ready =
      let inv = producer-Inv s v e in
      tail_next-ne-head s.queue (taken s.consumer + length v.rest) v.inv.frame
        (omega (arith, ready.1, IsSound-between p cap n s v, v.sized)) (sym inv.producer.1 ∙ full)

  pub produce_moves :
      (s : Run A) (v : IsSound p cap n s) (pr : Producer A)
      → s.producer ≡ pr
      → Moved p cap n (same prod) s (produce_access p n pr s)
  unfolding produce_access
  produce_moves s v Producer.resting e = elim (dec_lt s.i n) [
    | yes more ↦
        let s' : Run A = record s {
          producer = Producer.loaded (p.make s.i) s.queue.tail (next_index s.queue s.queue.tail);
        } in
        record {
          after = s';
          defined = ground arith;
          sound = produced p cap n s v e (Produce.load_tail (p.make s.i)) (refl, more);
          nearer = by_producer s s' Producer.resting e refl refl refl (λ ready. omega arith);
        }
    | no over ↦ record {
      after = s;
      defined = ground arith;
      sound = v;
      nearer = by_producer s s Producer.resting e refl refl refl (λ ready. absurd (over ready.0));
    }
  ]
  produce_moves s v (Producer.loaded w t m) e = elim (ℕ_discrete m s.queue.head) [
    | yes full ↦
        let s' : Run A = record s { producer = Producer.resting } in
        record {
          after = s';
          defined = ground arith;
          sound = produced p cap n s v e (Produce.see_full full) record { lower = tt };
          nearer =
              by_producer s s' (Producer.loaded w t m) e refl refl refl
                (λ ready. absurd (finds_room s v e full ready));
        }
    | no room ↦
        let s' : Run A = record s { producer = Producer.granted w t m } in
        record {
          after = s';
          defined = ground arith;
          sound = produced p cap n s v e (Produce.see_room room) (Making-at p cap n s v e);
          nearer = by_producer s s' (Producer.loaded w t m) e refl refl refl (λ ready. omega arith);
        }
  ]
  produce_moves s v (Producer.granted w t m) e =
      let inv = producer-Inv s v e in
      let buf = set s.queue.buf t (some w) in
      let written : store s.queue.buf t w ≡ some buf =
        ground (arith, inv.producer.0, inv.frame.valid.stored, inv.frame.valid.tail_in) in
      let s' : Run A = record s {
        queue = record (s.queue) { buf = buf };
        producer = Producer.wrote w m;
      } in
      record {
        after = s';
        defined = rw (written, produce_access) refl;
        sound = produced p cap n s v e (Produce.write written) (Making-at p cap n s v e);
        nearer = by_producer s s' (Producer.granted w t m) e refl refl refl (λ ready. omega arith);
      }
  produce_moves s v (Producer.wrote w m) e =
      let (_, more) = Making-at p cap n s v e in
      record {
        after = record s {
          queue = record (s.queue) { tail = m };
          producer = Producer.resting;
          i = (s.i + 1) % size_mod;
        };
        defined = refl;
        sound = published p cap n s v w m _ e (wraps n s.i small more);
        nearer = inl (omega (arith, wraps n s.i small more));
      }
