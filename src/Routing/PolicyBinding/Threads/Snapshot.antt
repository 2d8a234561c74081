-- ===== src/Routing/PolicyBinding/Threads/Snapshot.antt =====
-- Which function and which state a worker accepts together.
use alpha_smart_router.Base.{
  ℕ, suc, ◌+◌, ◌*◌, ◌%◌, ◌^◌, ◌<◌, ◌≡◌, ◌⊎◌, inl, inr, refl, ◌∙◌, subst, true, Option, none, some,
  arith, bit_or-one, bit_and-one,
}
use alpha_smart_router.Routing.PolicyBinding.{ChooseFn, PolicyBinding}
use alpha_smart_router.Routing.PolicyBinding.Threads.{
  Update, Writer, Reader, Shared, fn_of, state_of, Step, enter, enter_held, mark_late, load_fn_late,
  load_state_late, store_first, store_second, leave, see_writer, load_seq, load_fn, load_state,
  accept, retry, give_up, Reach, here, next,
}
use alpha_smart_router.Routing.PolicyBinding.Threads.Fits.{
  IsIdle, WriterFits, ReaderFits, ReaderFits-busy, ReaderFits-finished, WriterFits-idle,
  HoldsOne-store, Holds-store, store_one-seq, store_other-seq,
}

module _ (class : ℕ → ChooseFn) (s0 : ℕ) where
  module _ (even : s0 % 2 ≡ 0) where
    -- An even sequence number is that of an idle writer.
    stable-IsIdle :
        (n : ℕ) (b : PolicyBinding) (last : Update) (w : Writer)
        → WriterFits class s0 n b last w
        → b.seq % 2 ≡ 0
        → (b.seq ≡ (s0 + 2 * n) % 2 ^ 32) × IsIdle w
    stable-IsIdle n b last Writer.idle fits stable = (fits.0, tt)
    stable-IsIdle n b last (Writer.entered u began) fits stable = absurd (omega (arith, fits.0))
    stable-IsIdle n b last (Writer.one_stored u began) fits stable =
        absurd (omega (arith, fits.0.0))
    stable-IsIdle n b last (Writer.both_stored u began) fits stable =
        absurd (omega (arith, fits.0.0))

    accepted_fits :
        (n left s1 since : ℕ) (fn : Option ChooseFn) (st : Option ℕ) (b : PolicyBinding)
        (last : Update) (w : Writer)
        → WriterFits class s0 n b last w
        → ReaderFits class s0 n last w (Reader.read_state left s1 since fn st)
        → b.seq ≡ s1
        → b.seq % 2 ≡ 0
        → since < 2 ^ 31
        → (fn ≡ fn_of class last) × (st ≡ state_of class last)
    accepted_fits n left s1 since fn st b last w wfits ((few, began), clean) same stable less =
        let (now, i) = stable-IsIdle n b last w wfits stable in
        clean (omega (arith, few, began, now, same)) i

    -- `n` updates are finished.
    abbrev Inv : Shared → ℕ → Type 0
    Inv s n =
        WriterFits class s0 n s.binding s.last s.writer
        × ReaderFits class s0 n s.last s.writer s.reader

    writer_at :
        (n : ℕ) (s : Shared) {w : Writer}
        → s.writer ≡ w
        → Inv s n
        → WriterFits class s0 n s.binding s.last w
    writer_at n s e inv = subst (WriterFits class s0 n s.binding s.last) e inv.0

    reader_at :
        (n : ℕ) (s : Shared) {r : Reader}
        → s.reader ≡ r
        → Inv s n
        → ReaderFits class s0 n s.last s.writer r
    reader_at n s e inv = subst (ReaderFits class s0 n s.last s.writer) e inv.1

    Step-Inv : {s t : Shared} (n : ℕ) → Step class true s t → Inv s n → (n' : ℕ) × Inv t n'
    Step-Inv {s} n (enter u e) inv =
        let idle = writer_at n s e inv in
        (
          n,
          (
            (omega (arith, bit_or-one s.binding.seq, idle.0, even), idle.0),
            ReaderFits-busy class s0 n s.last s.writer (Writer.entered u s.binding.seq) s.reader
                (λ i. i) inv.1,
          ),
        )
    Step-Inv {s} n (enter_held u free e) inv = absurd (cc free)
    Step-Inv {s} n (mark_late free e) inv = absurd (cc free)
    Step-Inv {s} n (load_fn_late free e) inv = absurd (cc free)
    Step-Inv {s} n (load_state_late free e) inv = absurd (cc free)
    Step-Inv {s} n (store_first {u} {start} e) inv =
        let busy = writer_at n s e inv in
        (
          n,
          (
            (
              (store_one-seq class s0 u s.binding ∙ busy.0, busy.1),
              HoldsOne-store class s0 u s.binding,
            ),
            ReaderFits-busy class s0 n s.last s.writer (Writer.one_stored u start) s.reader (λ i. i)
                inv.1,
          ),
        )
    Step-Inv {s} n (store_second {u} {start} e) inv =
        let (busy, one) = writer_at n s e inv in
        (
          n,
          (
            (
              (store_other-seq class s0 u s.binding ∙ busy.0, busy.1),
              Holds-store class s0 u s.binding one,
            ),
            ReaderFits-busy class s0 n s.last s.writer (Writer.both_stored u start) s.reader
                (λ i. i) inv.1,
          ),
        )
    Step-Inv {s} n (leave {u} {start} e) inv =
        let (busy, held) = writer_at n s e inv in
        (
          suc n,
          (
            (omega (arith, bit_or-one start, busy.1, even), held),
            ReaderFits-finished class s0 n s.last u s.writer s.reader inv.1,
          ),
        )
    Step-Inv {s} n (see_writer e odd) inv = (n, (inv.0, tt))
    Step-Inv {s} n (load_seq {left} e stable) inv =
        let (now, i) =
          stable-IsIdle n s.binding s.last s.writer inv.0
            (omega (arith, bit_and-one s.binding.seq, stable)) in
        (n, (inv.0, (omega arith, omega (arith, now))))
    Step-Inv {s} n (load_fn e) inv = (
      n,
      (
        inv.0,
        (
          reader_at n s e inv,
          λ _ i. (WriterFits-idle class s0 n s.binding s.last s.writer inv.0 i).0,
        ),
      ),
    )
    Step-Inv {s} n (load_state e) inv =
        let (began, clean) = reader_at n s e inv in
        (
          n,
          (
            inv.0,
            (
              began,
              λ none_since i. (
                clean none_since i,
                (WriterFits-idle class s0 n s.binding s.last s.writer inv.0 i).1,
              ),
            ),
          ),
        )
    Step-Inv {s} n (accept {left} {s1} {since} {fn} {st} e same stable) inv = (
      n,
      (
        inv.0,
        accepted_fits n left s1 since fn st s.binding s.last s.writer inv.0 (reader_at n s e inv)
            same stable,
      ),
    )
    Step-Inv {s} n (retry e differ) inv = (n, (inv.0, tt))
    Step-Inv {s} n (give_up e) inv = (n, (inv.0, tt))

    Reach-Inv :
        {u0 : Update} {s : Shared} → s0 < 2 ^ 32 → Reach class true s0 u0 s → (n : ℕ) × Inv s n
    Reach-Inv small here = (0, ((omega arith, (refl, refl)), tt))
    Reach-Inv small (next r st) = let (n, inv) = Reach-Inv small r in Step-Inv n st inv

    -- A binding starts with an even sequence number, its one writer publishes each object at its own
    -- class, and accesses take effect in the order of the program, which the source does not enforce. When a worker has accepted a snapshot, then, if fewer than 2^31 updates finished
    -- between its two loads of the sequence number, its function and its state are those of the last
    -- update that had finished: both are null, or the function is that of the class of the object at
    -- the state.
    pub Reach-snapshot :
        {u0 : Update} {s : Shared} (since : ℕ) (fn : Option ChooseFn) (st : Option ℕ)
        (latest : Update)
        → s0 < 2 ^ 32
        → Reach class true s0 u0 s
        → s.reader ≡ Reader.accepted since fn st latest
        → since < 2 ^ 31
        → (fn ≡ fn_of class latest)
          × (st ≡ state_of class latest)
          × (((fn ≡ none) × (st ≡ none))
              ⊎ ((policy : ℕ) × (st ≡ some policy) × (fn ≡ some (class policy))))
    Reach-snapshot {u0} {s} since fn st latest small r e few =
        let (n, inv) = Reach-Inv small r in
        let (is_fn, is_state) = reader_at n s e inv few in
        (is_fn, is_state, one_update latest is_fn is_state)
      where
        one_update :
            (u : Update)
            → fn ≡ fn_of class u
            → st ≡ state_of class u
            → ((fn ≡ none) × (st ≡ none))
              ⊎ ((policy : ℕ) × (st ≡ some policy) × (fn ≡ some (class policy)))
        one_update (Update.publish policy) f g = inr (policy, g, f)
        one_update Update.clear f g = inl (f, g)
