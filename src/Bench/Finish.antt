-- ===== src/Bench/Finish.antt =====
-- The end of the two loops of `run_one`, a turn at a time.
use alpha_smart_router.Base.{
  ◌*◌, pow_two_gt_one, ℕ, zero, suc, ◌+◌, ◌^◌, ◌≤◌, ◌<◌, ◌≡◌, refl, ◌∙◌, sym, ap, subst, true, none,
  some, List, [], ◌∷◌, ◌++◌, arith, inl, inr, ◌⊎◌,
}
use mathlib.Core.Option as Option
use mathlib.Core.List.{Memᴰ}
use mathlib.Core.List.Memᴰ
use alpha_smart_router.Mem.Spsc.{SpscQueue, ElementTraits, size_mod, value, with_capacity}
use alpha_smart_router.Mem.Spsc.Invariant.{Holds}
use alpha_smart_router.Mem.Spsc.Create.{with_capacity-Holds}
use alpha_smart_router.Bench.{Thread, prod, cons, Payload, Run, left, turn, turns, run_one}
use alpha_smart_router.Bench.Turns.{counted, IsRunning, progress, Stuck, one_turn}

-- In each of `rounds` rounds each thread has at least one turn.
pub data Fair : (rounds : ℕ) → List Thread → Type 0 where
  unordered : (ts : List Thread) → Fair 0 ts
  round :
      {rounds : ℕ} (ts us : List Thread)
      → Memᴰ prod ts
      → Memᴰ cons ts
      → Fair rounds us
      → Fair (suc rounds) (ts ++ us)

module _ {ℓ} {A : Type ℓ} (p : Payload A) (cap n : ℕ) where
  -- Turns one after the other: they make progress, or every one of their threads is stuck.
  turn_all :
      n < size_mod
      → (ts : List Thread) (s : Run A) → IsRunning p cap n s
      → (s' : Run A) × (turns p n ts s ≡ some s')
        × IsRunning p cap n s'
        × ((progress p cap n s < progress p cap n s')
            ⊎ ((s' ≡ s) × ((t : Thread) → Memᴰ t ts → Stuck p cap n s t)))
  unfolding turns
  turn_all small [] s inv = (s, refl, inv, inr (refl, λ t m. absurd (Memᴰ.not-nil m)))
  turn_all small (t ∷ ts) s inv =
      let first = one_turn p cap n small t s inv in
      let (s', e, inv', moved) = turn_all small ts first.after first.running in
      (
        s',
        rw (first.defined, turns, e) refl,
        inv',
        elim first.moves [
          | inl more ↦ inl (elim moved [
            | inl further ↦ omega (arith, more, further)
            | inr (same, _) ↦ omega (arith, more, ap (progress p cap n) same)
          ])
          | inr (still, stuck) ↦ elim moved [
            | inl further ↦ inl (omega (arith, ap (progress p cap n) still, further))
            | inr (same, rest) ↦ inr (
              same ∙ still,
              λ t' m. elim (Memᴰ.cases_cons m) [
                | inl e ↦ subst (Stuck p cap n s) (sym e) stuck
                | inr m' ↦ subst (λ r. Stuck p cap n r t') still (rest t' m')
              ],
            )
          ]
        ],
      )

  turns-append :
      (ts us : List Thread) (s : Run A)
      → turns p n (ts ++ us) s ≡ Option.bind (turns p n ts s) (turns p n us)
  unfolding turns Option.bind
  turns-append [] us s = refl
  turns-append (t ∷ ts) us s =
      elim (turn p n t s)
        as (λ r.
          elim r [ none ↦ none | some s' ↦ turns p n (ts ++ us) s' ]
          ≡ Option.bind (elim r [ none ↦ none | some s' ↦ turns p n ts s' ]) (turns p n us)) [
            | none ↦ refl
            | some s' ↦ turns-append ts us s'
          ]

  -- With a slot to spare, both threads are stuck only at the end.
  both-Stuck :
      (s : Run A)
      → 1 < cap
      → Stuck p cap n s prod
      → Stuck p cap n s cons
      → (s.i ≡ n) × (s.consumed ≡ n)
  both-Stuck s room (inl done) drained = (done, omega arith)
  both-Stuck s room (inr full) drained = absurd (omega arith)

  -- A turn of each thread makes progress or finds the run at its end.
  rounds_finish :
      n < size_mod
      → 1 < cap
      → (rounds : ℕ) (ts : List Thread) (s : Run A) → IsRunning p cap n s
      → n + n ≤ progress p cap n s + rounds
      → Fair rounds ts
      → (s' : Run A) × (turns p n ts s ≡ some s')
        × IsRunning p cap n s'
        × ((s'.i ≡ n) × (s'.consumed ≡ n))
  unfolding Option.bind
  rounds_finish small room zero ts s inv enough (unordered _) =
      let (s', e, inv', moved) = turn_all small ts s inv in
      let kept : progress p cap n s ≤ progress p cap n s' = elim moved [
        | inl further ↦ omega (arith, further)
        | inr (same, _) ↦ omega (arith, ap (progress p cap n) same)
      ] in
      let order = inv'.ordered in
      let bound = inv'.bounded in
      (s', e, inv', (omega (arith, kept, order, bound), omega (arith, kept, order, bound)))
  rounds_finish small room (suc rounds) _ s inv enough (round ts us has_prod has_cons fair) =
      let (s1, e1, inv1, moved) = turn_all small ts s inv in
      let enough1 : n + n ≤ progress p cap n s1 + rounds = elim moved [
        | inl further ↦ omega (arith, further, enough)
        | inr (same, stuck) ↦
            let (done, drained) = both-Stuck s room (stuck prod has_prod) (stuck cons has_cons) in
            omega (arith, ap (progress p cap n) same, done, drained)
      ] in
      let (s', e, inv', ends) = rounds_finish small room rounds us s1 inv1 enough1 fair in
      (s', turns-append ts us s ∙ ap (λ r. Option.bind r (turns p n us)) e1 ∙ e, inv', ends)

abbrev at_start {ℓ} : {A : Type ℓ} → Payload A → SpscQueue A → Run A
at_start p q = record { queue = q; i = 0; consumed = 0; out = p.initial }

run_one_lem {ℓ} :
    {A : Type ℓ} (p : Payload A) (traits : ElementTraits) (cap n : ℕ) (ts : List Thread)
    (q : SpscQueue A) (s : Run A)
    → with_capacity traits true cap ≡ some (value q)
    → turns p n ts (at_start p q) ≡ some s
    → run_one p traits true cap n ts ≡ some (left s)
unfolding run_one
run_one_lem p traits cap n ts q s created ran = rw (created, run_one) (ap (Option.map left) ran)

-- Of a trivially copyable element type, at a power of two from 2 up whose storage takes fewer than
-- 2^64 bytes, and with that storage, for fewer than 2^64 elements: no turn of `run_one` is undefined behaviour. Once each thread has had a turn
-- in each of 2 n rounds, whatever the order in a round and whatever comes after, both loops have
-- ended: `i` and `consumed` are n, the queue is empty, and the consumer's variable has what it makes
-- of the last element, if there is one.
pub run_one_finishes {ℓ} :
    {A : Type ℓ} (p : Payload A) (traits : ElementTraits) (k n : ℕ) (ts : List Thread)
    → traits.trivially_copyable ≡ true
    → 0 < traits.size
    → 0 < k
    → 2 ^ k < size_mod
    → 2 ^ k * traits.size < size_mod
    → n < size_mod
    → Fair (n + n) ts
    → (s : Run A) × (run_one p traits true (2 ^ k) n ts ≡ some (left s))
      × (s.i ≡ n)
      × (s.consumed ≡ n)
      × Holds s.queue []
      × ((c : ℕ) → n ≡ suc c → s.out ≡ p.used (p.make c))
unfolding counted
run_one_finishes {A = A} p traits k n ts plain sized pos fits whole small fair =
    let (q, e, held, cap) = with_capacity-Holds traits k fits sized whole plain in
    let running : IsRunning p (2 ^ k) n (at_start p q) = record {
      holds = held;
      sized = cap;
      ordered = omega arith;
      bounded = omega arith;
      last = λ c e. absurd (omega arith);
    } in
    let room = pow_two_gt_one k pos in
    let (s, run, inv, (all, drained)) =
      rounds_finish p (2 ^ k) n small room (n + n) ts (at_start p q) running (omega arith) fair in
    (
      s,
      run_one_lem p traits (2 ^ k) n ts q s e run,
      all,
      drained,
      subst (λ (m : ℕ). Holds s.queue (counted p.make s.consumed m)) {y = 0} (omega arith)
          inv.holds,
      λ c last. inv.last c (drained ∙ last),
    )
