-- ===== src/Bench/Turns.antt =====
-- What one turn of a thread does to a run of `run_one`.
use alpha_smart_router.Base.{
  ℕ, zero, suc, ◌+◌, ◌-◌, ◌%◌, ◌≤◌, ◌<◌, ◌≡◌, refl, ◌∙◌, ap, ap₂, subst, Option, some, List, [],
  ◌∷◌, ◌++◌, arith, length, dec_lt, inl, inr, ◌⊎◌, ℕ_discrete,
}
use native.Mathlib.Nat.{mod-eq_of_lt}
use alpha_smart_router.Mem.Spsc.{SpscQueue, size_mod, push}
use alpha_smart_router.Mem.Spsc.Invariant.{Holds}
use alpha_smart_router.Mem.Spsc.Refine.{
  push_with_room, push-full, push_move-push, pop_with_some, pop-none,
}
use alpha_smart_router.Bench.{Thread, prod, cons, Payload, Run, enqueue, produce, consume, turn}

-- `f from`, `f (from + 1)`, ... : as many as `n`.
unfoldable pub counted {ℓ} : {A : Type ℓ} → (ℕ → A) → (from n : ℕ) → List A
counted f from zero = []
counted f from (suc n) = f from ∷ counted f (suc from) n

pub length-counted {ℓ} : {A : Type ℓ} (f : ℕ → A) (from n : ℕ) → length (counted f from n) ≡ n
unfolding counted
length-counted f from zero = refl
length-counted f from (suc n) = ap suc (length-counted f (suc from) n)

pub counted-suc {ℓ} :
    {A : Type ℓ} (f : ℕ → A) (from n : ℕ)
    → counted f from n ++ (f (from + n) ∷ []) ≡ counted f from (suc n)
unfolding counted
counted-suc f from zero = ap (λ (k : ℕ). f k ∷ []) (omega arith)
counted-suc f from (suc n) =
    ap (λ l. f from ∷ l)
      (ap (λ (k : ℕ). counted f (suc from) n ++ (f k ∷ [])) (omega arith)
        ∙ counted-suc f (suc from) n)

enqueue-push {ℓ} :
    {A : Type ℓ} (p : Payload A) (q : SpscQueue A) (i : ℕ) → enqueue p q i ≡ push q (p.make i)
unfolding enqueue
enqueue-push p q i = ground (arith, push_move-push p.moved q (p.make i))

module _ {ℓ} {A : Type ℓ} (p : Payload A) (cap n : ℕ) where
  -- Between two turns the queue holds the elements from `consumed` up to `i`.
  pub record IsRunning (s : Run A) : Type ℓ where
    pub holds : Holds s.queue (counted p.make s.consumed (s.i - s.consumed))
    pub sized : s.queue.capacity ≡ cap
    pub ordered : s.consumed ≤ s.i
    pub bounded : s.i ≤ n
    pub last : (c : ℕ) → s.consumed ≡ suc c → s.out ≡ p.used (p.make c)

  abbrev pub progress : Run A → ℕ
  progress s = s.i + s.consumed

  -- A turn of the thread does not change the run.
  abbrev pub Stuck : Run A → Thread → Type 0
  Stuck s prod = (s.i ≡ n) ⊎ (s.i + 1 ≡ s.consumed + cap)
  Stuck s cons = s.i ≡ s.consumed

  -- What one or more turns make of a run.
  pub record Turned (s : Run A) (r : Option (Run A)) (Still : Type 0) : Type ℓ where
    pub after : Run A
    pub defined : r ≡ some after
    pub running : IsRunning after
    pub moves : (progress s < progress after) ⊎ ((after ≡ s) × Still)

  module _ (small : n < size_mod) (s : Run A) (inv : IsRunning s) where
    open inv use {holds, sized, ordered, bounded, last}

    occupied : length (counted p.make s.consumed (s.i - s.consumed)) ≡ s.i - s.consumed
    occupied = length-counted p.make s.consumed (s.i - s.consumed)

    stays : (t : Thread) → turn p n t s ≡ some s → Stuck s t → Turned s (turn p n t s) (Stuck s t)
    stays t e stuck = record { after = s; defined = e; running = inv; moves = inr (refl, stuck) }

    wraps : (k : ℕ) → k < n → (k + 1) % size_mod ≡ k + 1
    wraps k lt = mod-eq_of_lt (omega arith)

    pushed-IsRunning :
        (q : SpscQueue A)
        → Holds q (counted p.make s.consumed (s.i - s.consumed) ++ (p.make s.i ∷ []))
        → q.capacity ≡ s.queue.capacity
        → s.i < n
        → IsRunning (record s { queue = q; i = (s.i + 1) % size_mod })
    pushed-IsRunning q held same more = record {
      holds = subst (Holds q) extended held;
      sized = same ∙ sized;
      ordered = omega (arith, wraps s.i more, ordered);
      bounded = omega (arith, wraps s.i more);
      last = last;
    }
      where
        extended :
            counted p.make s.consumed (s.i - s.consumed) ++ (p.make s.i ∷ [])
            ≡ counted p.make s.consumed ((s.i + 1) % size_mod - s.consumed)
        extended =
            ap (λ (k : ℕ). counted p.make s.consumed (s.i - s.consumed) ++ (p.make k ∷ []))
              (omega (arith, ordered))
            ∙ counted-suc p.make s.consumed (s.i - s.consumed)
            ∙ ap (counted p.make s.consumed) (omega (arith, wraps s.i more, ordered))

    produce_turn : Turned s (turn p n prod s) (Stuck s prod)
    unfolding turn produce
    produce_turn = elim (dec_lt s.i n) [
      | no over ↦ stays prod (ground arith) (inl (omega (arith, bounded)))
      | yes more ↦ elim (dec_lt (s.i + 1) (s.consumed + cap)) [
        | no full ↦
            let tight = holds.bounded in
            let e : suc (length (counted p.make s.consumed (s.i - s.consumed))) ≡ s.queue.capacity =
              omega (arith, occupied, sized, ordered, tight) in
            let pushed = enqueue-push p s.queue s.i ∙ push-full s.queue _ holds (p.make s.i) e in
            stays prod (ground (arith, pushed))
              (inr (omega (arith, occupied, sized, ordered, tight)))
        | yes room ↦
            let (q, e, held, same) =
              push_with_room s.queue _ (p.make s.i) holds
                (omega (arith, occupied, sized, ordered)) in
            let pushed = enqueue-push p s.queue s.i ∙ e in
            record {
              after = record s { queue = q; i = (s.i + 1) % size_mod };
              defined = ground (arith, pushed);
              running = pushed-IsRunning q held same more;
              moves = inl (omega (arith, wraps s.i more));
            }
      ]
    ]

    popped-IsRunning :
        (q : SpscQueue A) (rest : ℕ)
        → Holds q (counted p.make (suc s.consumed) rest)
        → q.capacity ≡ s.queue.capacity
        → s.i ≡ s.consumed + suc rest
        → IsRunning (record s {
          queue = q;
          consumed = (s.consumed + 1) % size_mod;
          out = p.used (p.make s.consumed);
        })
    popped-IsRunning q rest held same left_over = record {
      holds = subst (Holds q) shorter held;
      sized = same ∙ sized;
      ordered = omega (arith, step);
      bounded = bounded;
      last = λ c e. ap (λ (k : ℕ). p.used (p.make k)) (omega (arith, step));
    }
      where
        step : (s.consumed + 1) % size_mod ≡ s.consumed + 1
        step = wraps s.consumed (omega (arith, bounded))

        shorter :
            counted p.make (suc s.consumed) rest
            ≡ counted p.make ((s.consumed + 1) % size_mod) (s.i - (s.consumed + 1) % size_mod)
        shorter = ap₂ (counted p.make) (omega (arith, step)) (omega (arith, step))

    consume_turn : Turned s (turn p n cons s) (Stuck s cons)
    unfolding turn consume counted
    consume_turn = elim (ℕ_discrete s.i s.consumed) [
      | yes drained ↦
          let vacant : Holds s.queue [] =
            subst (λ (k : ℕ). Holds s.queue (counted p.make s.consumed k)) {y = 0} (omega arith)
              holds in
          stays cons (ground (arith, pop-none p.moved s.queue vacant)) drained
      | no more ↦
          let rest : ℕ = s.i - suc s.consumed in
          let first : Holds s.queue (p.make s.consumed ∷ counted p.make (suc s.consumed) rest) =
            subst (λ (k : ℕ). Holds s.queue (counted p.make s.consumed k)) {y = suc rest}
              (omega (arith, ordered)) holds in
          let (q, e, held, same) = pop_with_some p.moved s.queue _ _ first in
          let under : s.consumed < n = omega (arith, ordered, bounded) in
          record {
            after = record s {
              queue = q;
              consumed = (s.consumed + 1) % size_mod;
              out = p.used (p.make s.consumed);
            };
            defined = ground (arith, e, under);
            running = popped-IsRunning q rest held same (omega (arith, ordered));
            moves = inl (omega (arith, wraps s.consumed under));
          }
    ]

  pub one_turn :
      n < size_mod → (t : Thread) (s : Run A) → IsRunning s → Turned s (turn p n t s) (Stuck s t)
  one_turn small prod s inv = produce_turn small s inv
  one_turn small cons s inv = consume_turn small s inv
