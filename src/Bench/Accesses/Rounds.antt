-- ===== src/Bench/Accesses/Rounds.antt =====
-- Rounds of accesses of the threads of `run_one`.
use alpha_smart_router.Base.{
  ℕ, zero, suc, ◌+◌, ◌≤◌, ◌<◌, ◌≡◌, ◌⊎◌, inl, inr, refl, ◌∙◌, ap, none, some, List, [], ◌∷◌, ◌++◌,
  arith, dec_lt,
}
use mathlib.Core.Option as Option
use alpha_smart_router.Mem.Spsc.{size_mod}
use alpha_smart_router.Bench.{Thread, prod, cons, Payload}
use alpha_smart_router.Bench.Accesses.{Run, access, accesses}
use alpha_smart_router.Bench.Accesses.Sound.{IsSound, IsSound-between}
use alpha_smart_router.Bench.Accesses.Ranks.{rank_pos, progress, same, Ready, Nearer, Moved}
use alpha_smart_router.Bench.Accesses.ProducerMoves.{produce_moves}
use alpha_smart_router.Bench.Accesses.ConsumerMoves.{consume_moves}

-- How many of the accesses are the thread's.
abbrev pub tally : List Thread → Thread → ℕ
tally [] u = 0
tally (t ∷ ts) u = same t u + tally ts u

-- In each of `rounds` rounds each thread has at least four accesses.
pub data Fair : (rounds : ℕ) → List Thread → Type 0 where
  unordered : (ts : List Thread) → Fair 0 ts
  round :
      {rounds : ℕ} (ts us : List Thread)
      → ((u : Thread) → 4 ≤ tally ts u)
      → Fair rounds us
      → Fair (suc rounds) (ts ++ us)

module _ {ℓ} {A : Type ℓ} (p : Payload A) (cap n : ℕ) (small : n < size_mod) where
  access_moves :
      (t : Thread) (s : Run A) → IsSound p cap n s → Moved p cap n (same t) s (access p n t s)
  unfolding access
  access_moves prod s v = produce_moves p cap n small s v s.producer refl
  access_moves cons s v = consume_moves p cap n small s v s.consumer refl

  accesses-Moved :
      (ts : List Thread) (s : Run A)
      → IsSound p cap n s
      → Moved p cap n (tally ts) s (accesses p n ts s)
  unfolding accesses
  accesses-Moved [] s v = record {
    after = s;
    defined = refl;
    sound = v;
    nearer = inr (refl, refl, λ t ready. omega arith);
  }
  accesses-Moved (t ∷ ts) s v =
      let first = access_moves t s v in
      let later = accesses-Moved ts first.after first.sound in
      record {
        after = later.after;
        defined = rw (first.defined, accesses) later.defined;
        sound = later.sound;
        nearer = both first.after later.after first.nearer later.nearer;
      }
    where
      both :
          (s' s'' : Run A)
          → Nearer p cap n (same t) s s'
          → Nearer p cap n (tally ts) s' s''
          → Nearer p cap n (tally (t ∷ ts)) s s''
      both s' s'' (inl more) (inl further) = inl (omega (arith, more, further))
      both s' s'' (inl more) (inr (si, sc, ranks)) = inl (omega (arith, more, si, sc))
      both s' s'' (inr (si, sc, ranks)) (inl further) = inl (omega (arith, si, sc, further))
      both s' s'' (inr (si, sc, ranks)) (inr (si', sc', ranks')) =
          inr
            (si' ∙ si, sc' ∙ sc, λ u ready. omega (arith, ranks u ready, ranks' u (still u ready)))
        where
          still : (u : Thread) → Ready p cap n s u → Ready p cap n s' u
          still prod ready = (omega (arith, si, ready.0), omega (arith, si, sc, ready.1))
          still cons ready = omega (arith, si, sc, ready)

  -- With a slot to spare, one of the threads is ready until the end.
  neither-Ready :
      (s : Run A)
      → 1 < cap
      → s.consumed ≤ s.i
      → s.i ≤ n
      → ((t : Thread) → ¬ Ready p cap n s t)
      → (s.i ≡ n) × (s.consumed ≡ n)
  neither-Ready s room order bound neither = elim (dec_lt s.consumed s.i) [
    | yes some_left ↦ absurd (neither cons some_left)
    | no drained ↦ elim (dec_lt s.i n) [
      | yes more ↦ absurd (neither prod (more, omega arith))
      | no done ↦ (omega arith, omega arith)
    ]
  ]

  ordered : (s : Run A) → IsSound p cap n s → s.consumed ≤ s.i
  ordered s v = omega (arith, IsSound-between p cap n s v)

  -- A round makes progress or finds the run at its end.
  round_moves :
      (ts : List Thread) (s s' : Run A)
      → 1 < cap
      → IsSound p cap n s
      → ((u : Thread) → 4 ≤ tally ts u)
      → Nearer p cap n (tally ts) s s'
      → (progress s < progress s') ⊎ ((s.i ≡ n) × (s.consumed ≡ n))
  round_moves ts s s' room v fair (inl more) = inl more
  round_moves ts s s' room v fair (inr (si, sc, ranks)) = inr (
      neither-Ready s room (ordered s v) v.bounded
        (λ t ready. omega (arith, ranks t ready, fair t, (rank_pos s' t).0, (rank_pos s t).1)))

  accesses-append :
      (ts us : List Thread) (s : Run A)
      → accesses p n (ts ++ us) s ≡ Option.bind (accesses p n ts s) (accesses p n us)
  unfolding accesses Option.bind
  accesses-append [] us s = refl
  accesses-append (t ∷ ts) us s =
      elim (access p n t s)
        as (λ r.
          elim r [ none ↦ none | some s' ↦ accesses p n (ts ++ us) s' ]
          ≡ Option.bind (elim r [ none ↦ none | some s' ↦ accesses p n ts s' ]) (accesses p n us)) [
            | none ↦ refl
            | some s' ↦ accesses-append ts us s'
          ]

  Nearer-le :
      (ts : List Thread) (s s' : Run A) → Nearer p cap n (tally ts) s s' → progress s ≤ progress s'
  Nearer-le ts s s' (inl more) = omega (arith, more)
  Nearer-le ts s s' (inr (si, sc, ranks)) = omega (arith, si, sc)

  pub rounds_finish :
      1 < cap
      → (rounds : ℕ) (ts : List Thread) (s : Run A) → IsSound p cap n s
      → n + n ≤ progress s + rounds
      → Fair rounds ts
      → (s' : Run A) × (accesses p n ts s ≡ some s')
        × IsSound p cap n s'
        × ((s'.i ≡ n) × (s'.consumed ≡ n))
  unfolding Option.bind
  rounds_finish room zero ts s v enough (unordered _) =
      let m = accesses-Moved ts s v in
      let kept = Nearer-le ts s m.after m.nearer in
      let order = ordered m.after m.sound in
      let bound = m.sound.bounded in
      (
        m.after,
        m.defined,
        m.sound,
        (omega (arith, kept, order, bound, enough), omega (arith, kept, order, bound, enough)),
      )
  rounds_finish room (suc rounds) _ s v enough (round ts us often fair) =
      let m = accesses-Moved ts s v in
      let kept = Nearer-le ts s m.after m.nearer in
      let enough1 : n + n ≤ progress m.after + rounds =
        elim (round_moves ts s m.after room v often m.nearer) [
          | inl more ↦ omega (arith, more, enough)
          | inr (done, drained) ↦ omega (arith, kept, done, drained)
        ] in
      let (s', e, v', ends) = rounds_finish room rounds us m.after m.sound enough1 fair in
      (
        s',
        accesses-append ts us s ∙ ap (λ r. Option.bind r (accesses p n us)) m.defined ∙ e,
        v',
        ends,
      )
