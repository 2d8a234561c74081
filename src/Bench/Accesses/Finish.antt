-- ===== src/Bench/Accesses/Finish.antt =====
-- The end of the two loops of `run_one`, an access at a time.
use alpha_smart_router.Base.{
  ◌*◌, pow_two_gt_one, ℕ, suc, ◌+◌, ◌^◌, ◌≤◌, ◌<◌, ◌≡◌, refl, ◌∙◌, ap, subst, true, some, List, [],
  ◌∷◌, arith, length,
}
use mathlib.Core.Option as Option
use alpha_smart_router.Mem.Spsc.{SpscQueue, ElementTraits, size_mod, value, with_capacity}
use alpha_smart_router.Mem.Spsc.Invariant.{Holds}
use alpha_smart_router.Mem.Spsc.Create.{with_capacity-Holds}
use alpha_smart_router.Mem.Spsc.Threads.{Producer, Consumer}
use alpha_smart_router.Mem.Spsc.Threads.Invariant.{Inv}
use alpha_smart_router.Mem.Spsc.Threads.Linear.{resting-Holds}
use alpha_smart_router.Bench.{Thread, Payload}
use alpha_smart_router.Bench.Turns.{counted}
use alpha_smart_router.Bench.Accesses.{Run, left, accesses, at_start, run_one}
use alpha_smart_router.Bench.Accesses.Sound.{IsSound, IsSound-between, Making-at, Popping-at}
use alpha_smart_router.Bench.Accesses.Ranks.{progress}
use alpha_smart_router.Bench.Accesses.Rounds.{Fair, rounds_finish}

module _ {ℓ} {A : Type ℓ} (p : Payload A) (cap n : ℕ) (small : n < size_mod) where
  -- At the end both threads have left their calls.
  ends_resting :
      (s : Run A)
      → IsSound p cap n s
      → s.i ≡ n
      → s.consumed ≡ n
      → (s.producer ≡ Producer.resting) × (s.consumer ≡ Consumer.resting)
  ends_resting s v done drained = (producer_rests s.producer refl, consumer_rests s.consumer refl)
    where
      producer_rests : (pr : Producer A) → s.producer ≡ pr → s.producer ≡ Producer.resting
      producer_rests Producer.resting e = e
      producer_rests (Producer.loaded w t m) e =
          absurd (omega (arith, (Making-at p cap n s v e).1, done))
      producer_rests (Producer.granted w t m) e =
          absurd (omega (arith, (Making-at p cap n s v e).1, done))
      producer_rests (Producer.wrote w m) e =
          absurd (omega (arith, (Making-at p cap n s v e).1, done))

      consumer_rests : (c : Consumer A) → s.consumer ≡ c → s.consumer ≡ Consumer.resting
      consumer_rests Consumer.resting e = e
      consumer_rests (Consumer.loaded h) e =
          absurd (omega (arith, Popping-at p cap n s v e, drained))
      consumer_rests (Consumer.granted h) e =
          absurd (omega (arith, Popping-at p cap n s v e, drained))
      consumer_rests (Consumer.took w h) e =
          absurd (omega (arith, Popping-at p cap n s v e, drained))

  ends_empty :
      (q : SpscQueue A) (s : Run A)
      → Holds q []
      → IsSound p cap n s
      → s.i ≡ n
      → s.consumed ≡ n
      → Holds s.queue []
  ends_empty q s held v done drained = of v.rest nothing still
    where
      sent : List A
      sent = counted p.make 0 s.i

      nothing : length v.rest ≡ 0
      nothing = omega (arith, IsSound-between p cap n s v, done, drained)

      still : Inv s.queue sent v.received Producer.resting Consumer.resting v.rest
      still =
          let (pr, c) = ends_resting s v done drained in
          subst (λ x. Inv s.queue sent v.received Producer.resting x v.rest) c
            (subst (λ x. Inv s.queue sent v.received x s.consumer v.rest) pr v.inv)

      of :
          (rest : List A)
          → length rest ≡ 0
          → Inv s.queue sent v.received Producer.resting Consumer.resting rest
          → Holds s.queue []
      of [] e inv = resting-Holds p.moved q held s.queue sent v.received [] inv
      of (x ∷ rest) e inv = absurd (omega (arith, e))

at_start-IsSound {ℓ} :
    {A : Type ℓ} (p : Payload A) (cap n : ℕ) (q : SpscQueue A)
    → Holds q []
    → q.capacity ≡ cap
    → IsSound p cap n (at_start p q)
unfolding counted
at_start-IsSound p cap n q held sized = record {
  received = [];
  rest = [];
  inv = record {
    split = refl;
    frame = held.frame;
    cells = λ i w at. ground arith;
    producer = tt;
    consumer = tt;
  };
  popped = refl;
  sized = sized;
  bounded = omega arith;
  making = record { lower = tt };
  popping = tt;
  last = λ c e. absurd (omega (arith, e));
}

run_one_lem {ℓ} :
    {A : Type ℓ} (p : Payload A) (traits : ElementTraits) (cap n : ℕ) (ts : List Thread)
    (q : SpscQueue A) (s : Run A)
    → with_capacity traits true cap ≡ some (value q)
    → accesses p n ts (at_start p q) ≡ some s
    → run_one p traits true cap n ts ≡ some (left s)
unfolding run_one
run_one_lem p traits cap n ts q s created ran = rw (created, run_one) (ap (Option.map left) ran)

-- Of a trivially copyable element type, at a power of two from 2 up whose storage takes fewer than
-- 2^64 bytes, and with that storage, for fewer than 2^64 elements, and at each access of the queue: no access is undefined behaviour. Once each
-- thread has had four accesses in each of 2 n rounds, whatever the order in a round and whatever
-- comes after, both loops have ended: `i` and `consumed` are n, neither thread is in a call, the
-- queue is empty, and the consumer's variable has what it makes of the last element, if there is
-- one.
pub run_one_ends {ℓ} :
    {A : Type ℓ} (p : Payload A) (traits : ElementTraits) (k n : ℕ) (ts : List Thread)
    → traits.trivially_copyable ≡ true
    → 0 < traits.size
    → 0 < k
    → 2 ^ k < size_mod
    → 2 ^ k * traits.size < size_mod
    → n < size_mod
    → Fair (n + n) ts
    → (s : Run A) × (run_one p traits true (2 ^ k) n ts ≡ some (left s))
      × (s.i ≡ n)
      × (s.consumed ≡ n)
      × (s.producer ≡ Producer.resting)
      × (s.consumer ≡ Consumer.resting)
      × Holds s.queue []
      × ((c : ℕ) → n ≡ suc c → s.out ≡ p.used (p.make c))
run_one_ends {A = A} p traits k n ts plain sized pos fits whole small fair =
    let (q, e, held, cap) = with_capacity-Holds traits k fits sized whole plain in
    let room = pow_two_gt_one k pos in
    let enough : n + n ≤ progress (at_start p q) + (n + n) = omega arith in
    let (s, run, v, (all, drained)) =
      rounds_finish p (2 ^ k) n small room (n + n) ts (at_start p q)
        (at_start-IsSound p (2 ^ k) n q held cap) enough fair in
    let (pr, c) = ends_resting p (2 ^ k) n small s v all drained in
    (
      s,
      run_one_lem p traits (2 ^ k) n ts q s e run,
      all,
      drained,
      pr,
      c,
      ends_empty p (2 ^ k) n small q s held v all drained,
      λ c last. v.last c (drained ∙ last),
    )
