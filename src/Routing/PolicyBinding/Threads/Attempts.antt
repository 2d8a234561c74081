-- ===== src/Routing/PolicyBinding/Threads/Attempts.antt =====
-- How many accesses a worker's snapshot makes.
use alpha_smart_router.Base.{
  ℕ, zero, suc, ◌+◌, ◌*◌, ◌%◌, ◌≤◌, ◌≡◌, ◌⊎◌, inl, inr, refl, ap, Bool, bit_and, arith, ℕ_discrete,
}
use alpha_smart_router.Routing.PolicyBinding.{ChooseFn}
use alpha_smart_router.Routing.PolicyBinding.Threads.{
  Update, Reader, finished, Shared, Step, enter, enter_held, mark_late, load_fn_late,
  load_state_late, store_first, store_second, leave, see_writer, load_seq, load_fn, load_state,
  accept, retry, give_up, Reach, here, next,
}

-- The accesses that a reader has left at most.
abbrev pub remaining : Reader → ℕ
remaining (Reader.trying left) = 4 * left + 1
remaining (Reader.read_seq left s1 since) = 4 * left + 4
remaining (Reader.read_fn left s1 since fn) = 4 * left + 3
remaining (Reader.read_state left s1 since fn st) = 4 * left + 2
remaining (Reader.accepted since fn st latest) = 0
remaining Reader.failed = 0

finished-remaining : (r : Reader) → remaining (finished r) ≡ remaining r
finished-remaining (Reader.trying left) = refl
finished-remaining (Reader.read_seq left s1 since) = refl
finished-remaining (Reader.read_fn left s1 since fn) = refl
finished-remaining (Reader.read_state left s1 since fn st) = refl
finished-remaining (Reader.accepted since fn st latest) = refl
finished-remaining Reader.failed = refl

-- `snapshot_binding` has returned.
abbrev pub Returned : Reader → Type 0
Returned (Reader.accepted since fn st latest) = Unit
Returned Reader.failed = Unit
Returned r = ⊥

module _ (class : ℕ → ChooseFn) where
  -- 1 for a step of the reader, 0 for one of the writer. A load that takes effect after the second
  -- one of `seq` has been counted at its place in the program.
  abbrev pub own : {ordered : Bool} {s t : Shared} → Step class ordered s t → ℕ
  own (enter u e) = 0
  own (enter_held u free e) = 0
  own (mark_late free e) = 0
  own (load_fn_late free e) = 0
  own (load_state_late free e) = 0
  own (store_first e) = 0
  own (store_second e) = 0
  own (leave e) = 0
  own (see_writer e odd) = 1
  own (load_seq e stable) = 1
  own (load_fn e) = 1
  own (load_state e) = 1
  own (accept e same stable) = 1
  own (retry e differ) = 1
  own (give_up e) = 1

  -- The reader's steps on the way.
  abbrev pub own_steps :
      {ordered : Bool} {seq : ℕ} {u : Update} {s : Shared} → Reach class ordered seq u s → ℕ
  own_steps here = 0
  own_steps (next r st) = own_steps r + own st

  own_falls :
      {ordered : Bool} {s t : Shared} (st : Step class ordered s t)
      → own st + remaining t.reader ≤ remaining s.reader
  own_falls {s = s} (enter u e) = omega arith
  own_falls {s = s} (enter_held u free e) = omega arith
  own_falls {s = s} (mark_late free e) = omega arith
  own_falls {s = s} (load_fn_late free e) = omega (arith, ap remaining e)
  own_falls {s = s} (load_state_late free e) = omega (arith, ap remaining e)
  own_falls {s = s} (store_first e) = omega arith
  own_falls {s = s} (store_second e) = omega arith
  own_falls {s = s} (leave e) = omega (arith, finished-remaining s.reader)
  own_falls {s = s} (see_writer e odd) = omega (arith, ap remaining e)
  own_falls {s = s} (load_seq e stable) = omega (arith, ap remaining e)
  own_falls {s = s} (load_fn e) = omega (arith, ap remaining e)
  own_falls {s = s} (load_state e) = omega (arith, ap remaining e)
  own_falls {s = s} (accept e same stable) = omega (arith, ap remaining e)
  own_falls {s = s} (retry e differ) = omega (arith, ap remaining e)
  own_falls {s = s} (give_up e) = omega (arith, ap remaining e)

  own_steps-le :
      {ordered : Bool} {seq : ℕ} {u : Update} {s : Shared} (r : Reach class ordered seq u s)
      → own_steps r + remaining s.reader ≤ 17
  own_steps-le here = omega arith
  own_steps-le (next r st) = omega (arith, own_steps-le r, own_falls st)

  -- A reader that has not returned can take a step, whatever the writer does.
  abbrev CanStep : Bool → Shared → Type 0
  CanStep ordered s = (t : Shared) × (st : Step class ordered s t) × (own st ≡ 1)

  can_step :
      (ordered : Bool) (s : Shared) (r : Reader) → s.reader ≡ r → Returned r ⊎ CanStep ordered s
  can_step ordered s (Reader.trying zero) e = inr (_, give_up e, refl)
  can_step ordered s (Reader.trying (suc left)) e = elim (ℕ_discrete (bit_and s.binding.seq 1) 0) [
    | yes stable ↦ inr (_, load_seq e stable, refl)
    | no odd ↦ inr (_, see_writer e odd, refl)
  ]
  can_step ordered s (Reader.read_seq left s1 since) e = inr (_, load_fn e, refl)
  can_step ordered s (Reader.read_fn left s1 since fn) e = inr (_, load_state e, refl)
  can_step ordered s (Reader.read_state left s1 since fn st) e =
      elim (ℕ_discrete s.binding.seq s1) [
        | no differ ↦ inr (_, retry e (λ agree. differ agree.0), refl)
        | yes same ↦ elim (ℕ_discrete (s.binding.seq % 2) 0) [
          | no odd ↦ inr (_, retry e (λ agree. odd agree.1), refl)
          | yes stable ↦ inr (_, accept e same stable, refl)
        ]
      ]
  can_step ordered s (Reader.accepted since fn st latest) e = inl tt
  can_step ordered s Reader.failed e = inl tt

  -- Whatever the interleaving with a writer that updates again and again, and whether or not accesses
  -- take effect in the order of the program: a worker takes at most 17
  -- steps of its own in `snapshot_binding`, and as long as it has not returned it can take the next
  -- one, so that it returns after at most 17.
  pub wait_free :
      {ordered : Bool} {seq : ℕ} {u : Update} {s : Shared} (r : Reach class ordered seq u s)
      → (own_steps r ≤ 17) × (Returned s.reader ⊎ CanStep ordered s)
  wait_free {ordered = ordered} {s = s} r =
      (omega (arith, own_steps-le r), can_step ordered s s.reader refl)
