-- ===== src/Routing/PathSelection/Seqlock/Torn.antt =====
-- What a reader of a metrics slot accepts while its writer is at work.
use alpha_smart_router.Base.{
  ℕ, suc, ◌+◌, ◌*◌, ◌%◌, ◌^◌, ◌≤◌, ◌<◌, ◌≡◌, ◌≢◌, ◌-◌, Option-cases, inl, inr, refl, ◌∙◌, sym, ap,
  subst, bit_and, true, Option, none, some, arith, bit_or-one, bit_and-one, Bool-cases,
}
use alpha_smart_router.Routing.PathSelection.{PathMetrics}
use alpha_smart_router.Routing.PathSelection.Seqlock.{
  Field, word, same_field, put, Writer, Reader, publication, Shared, Step, enter, enter_held,
  mark_late, read_late, write, publish, see_writer, begin, read, accept, retry, give_up, Reach,
  here, next,
}

-- With `n` publications so far: the writer's side.
abbrev WriterFits : (s0 n seq : ℕ) → (Field → ℕ) → PathMetrics → Writer → Type 0
WriterFits s0 n seq cells published Writer.idle =
    (seq ≡ (s0 + 2 * n) % 2 ^ 32) × ((f : Field) → cells f ≡ word published f)
WriterFits s0 n seq cells published (Writer.writing m began) =
    (seq ≡ (s0 + 2 * n) % 2 ^ 32 + 1) × (began ≡ (s0 + 2 * n) % 2 ^ 32)

-- While no publication came since the first load: every field read is the published one, unless the
-- writer is at work.
abbrev Clean : PathMetrics → Writer → (Field → Option ℕ) → Type 0
Clean published Writer.idle got = (f : Field) (w : ℕ) → got f ≡ some w → w ≡ word published f
Clean published (Writer.writing m began) got = Unit

abbrev ReaderFits : (s0 n : ℕ) → PathMetrics → Writer → Reader → Type 0
ReaderFits s0 n published w (Reader.reading left s1 since got) =
    (since ≤ n) × (s1 ≡ (s0 + 2 * (n - since)) % 2 ^ 32) × (since ≡ 0 → Clean published w got)
ReaderFits s0 n published w (Reader.accepted since got latest) =
    since < 2 ^ 31 → (f : Field) → got f ≡ some (word latest f)
ReaderFits s0 n published w r = Unit

pub same_field_eq : (f g : Field) → same_field f g ≡ true → f ≡ g
same_field_eq f g same = ground arith

put-Clean :
    (published : PathMetrics) (got : Field → Option ℕ) (f g : Field) (a w : ℕ)
    → a ≡ word published f
    → put got f (some a) g ≡ some w
    → (got g ≡ some w → w ≡ word published g)
    → w ≡ word published g
put-Clean published got f g a w fits e old = elim (Bool-cases (same_field f g)) [
  | inl same ↦ let one = same_field_eq f g same in cc (fits, one, (rw (same, put) at e))
  | inr differ ↦ old (rw (differ, put) at e)
]

module _ (s0 : ℕ) (m0 : PathMetrics) (even : s0 % 2 ≡ 0) where
  -- `n` updates are finished.
  abbrev Inv : Shared → ℕ → Type 0
  Inv s n =
      WriterFits s0 n s.seq s.cells s.published s.writer
      × ReaderFits s0 n s.published s.writer s.reader

  ReaderFits-enter :
      (n began : ℕ) (published m : PathMetrics) (w : Writer) (r : Reader)
      → ReaderFits s0 n published w r
      → ReaderFits s0 n published (Writer.writing m began) r
  ReaderFits-enter n began published m w (Reader.trying left) fits = tt
  ReaderFits-enter n began published m w (Reader.reading left s1 since got) fits =
      (fits.0, fits.1, λ e. tt)
  ReaderFits-enter n began published m w (Reader.accepted since got latest) fits = fits
  ReaderFits-enter n began published m w Reader.failed fits = tt

  ReaderFits-publish :
      (n : ℕ) (published m : PathMetrics) (w : Writer) (r : Reader)
      → ReaderFits s0 n published w r
      → ReaderFits s0 (suc n) m Writer.idle (publication r)
  ReaderFits-publish n published m w (Reader.trying left) fits = tt
  ReaderFits-publish n published m w (Reader.reading left s1 since got) fits =
      (omega (arith, fits.0), omega (arith, fits.0, fits.1), λ e. absurd (omega (arith, e)))
  ReaderFits-publish n published m w (Reader.accepted since got latest) fits = fits
  ReaderFits-publish n published m w Reader.failed fits = tt

  ReaderFits-begin :
      (n seq left : ℕ) (cells : Field → ℕ) (published : PathMetrics) (w : Writer)
      → bit_and seq 1 ≡ 0
      → WriterFits s0 n seq cells published w
      → ReaderFits s0 n published w (Reader.reading left seq 0 (λ f. none))
  ReaderFits-begin n seq left cells published Writer.idle e fits =
      (omega arith, omega (arith, fits.0), λ _ f w none_read. cc)
  ReaderFits-begin n seq left cells published (Writer.writing m began) e fits =
      absurd (omega (arith, bit_and-one seq, fits.0, even))

  ReaderFits-read :
      (n seq left s1 since : ℕ) (got : Field → Option ℕ) (cells : Field → ℕ)
      (published : PathMetrics) (w : Writer) (f : Field)
      → WriterFits s0 n seq cells published w
      → ReaderFits s0 n published w (Reader.reading left s1 since got)
      → ReaderFits s0 n published w (Reader.reading left s1 since (put got f (some (cells f))))
  ReaderFits-read n seq left s1 since got cells published Writer.idle f wfits fits = (
    fits.0,
    fits.1,
    λ e g v reads. put-Clean published got f g (cells f) v (wfits.1 f) reads (fits.2 e g v),
  )
  ReaderFits-read n seq left s1 since got cells published (Writer.writing m began) f wfits fits =
      (fits.0, fits.1, λ e. tt)

  accepted-Clean :
      (n seq left s1 since : ℕ) (got : Field → Option ℕ) (cells : Field → ℕ)
      (published : PathMetrics) (w : Writer)
      → WriterFits s0 n seq cells published w
      → ReaderFits s0 n published w (Reader.reading left s1 since got)
      → ((f : Field) → got f ≢ none)
      → seq ≡ s1
      → seq % 2 ≡ 0
      → since < 2 ^ 31
      → (f : Field) → got f ≡ some (word published f)
  accepted-Clean n seq left s1 since got cells published (Writer.writing m began) wfits fits all
        same stable few =
      absurd (omega (arith, wfits.0, even))
  accepted-Clean n seq left s1 since got cells published Writer.idle wfits fits all same stable
        few =
      λ f. elim (Option-cases (got f)) [
        | inl unread ↦ absurd (all f unread)
        | inr (v, reads) ↦ reads ∙ ap some (fits.2 unmoved f v reads)
      ]
    where
      unmoved : since ≡ 0
      unmoved = omega (arith, wfits.0, fits.0, fits.1)

  Step-Inv : {s t : Shared} (n : ℕ) → Step true s t → Inv s n → (n' : ℕ) × Inv t n'
  Step-Inv {s} n (enter m e) (wfits, rfits) =
      let idle = subst (λ w. WriterFits s0 n s.seq s.cells s.published w) e wfits in
      (
        n,
        (
          (omega (arith, bit_or-one s.seq, idle.0, even), idle.0),
          ReaderFits-enter n s.seq s.published m s.writer s.reader rfits,
        ),
      )
  Step-Inv {s} n (enter_held m free e) inv = absurd (cc free)
  Step-Inv {s} n (mark_late free e) inv = absurd (cc free)
  Step-Inv {s} n (read_late f free e) inv = absurd (cc free)
  Step-Inv {s} n (write {m} {start} f e) (wfits, rfits) =
      let busy = subst (λ w. WriterFits s0 n s.seq s.cells s.published w) e wfits in
      (
        n,
        (
          subst (λ w. WriterFits s0 n s.seq (put s.cells f (word m f)) s.published w) (sym e) busy,
          rfits,
        ),
      )
  Step-Inv {s} n (publish {m} {start} e all) (wfits, rfits) =
      let busy = subst (λ w. WriterFits s0 n s.seq s.cells s.published w) e wfits in
      (
        suc n,
        (
          (omega (arith, bit_or-one start, busy.1, even), all),
          ReaderFits-publish n s.published m s.writer s.reader rfits,
        ),
      )
  Step-Inv {s} n (see_writer e odd) (wfits, rfits) = (n, (wfits, tt))
  Step-Inv {s} n (begin {left} e stable) (wfits, rfits) =
      (n, (wfits, ReaderFits-begin n s.seq left s.cells s.published s.writer stable wfits))
  Step-Inv {s} n (read {left} {s1} {since} {got} f e) (wfits, rfits) = (
    n,
    (
      wfits,
      ReaderFits-read n s.seq left s1 since got s.cells s.published s.writer f wfits
          (subst (λ r. ReaderFits s0 n s.published s.writer r) e rfits),
    ),
  )
  Step-Inv {s} n (accept {left} {s1} {since} {got} e all same stable) (wfits, rfits) = (
    n,
    (
      wfits,
      accepted-Clean n s.seq left s1 since got s.cells s.published s.writer wfits
          (subst (λ r. ReaderFits s0 n s.published s.writer r) e rfits) all same stable,
    ),
  )
  Step-Inv {s} n (retry e differ) (wfits, rfits) = (n, (wfits, tt))
  Step-Inv {s} n (give_up e) (wfits, rfits) = (n, (wfits, tt))

  Reach-Inv : {s : Shared} → s0 < 2 ^ 32 → Reach true s0 m0 s → (n : ℕ) × Inv s n
  Reach-Inv small here = (0, ((omega arith, λ f. refl), tt))
  Reach-Inv small (next r st) = let (n, inv) = Reach-Inv small r in Step-Inv n st inv

  -- A slot starts with an even sequence number, and the accesses of each thread take effect in the
  -- order of its program, which the source does not enforce. When a reader has accepted what it
  -- read, then, if fewer than 2^31 updates were published between its two loads of the sequence number, each field
  -- is that of the update that was published last when it accepted: it has mixed no two updates.
  pub Reach-no_tear :
      {s : Shared} (since : ℕ) (got : Field → Option ℕ) (latest : PathMetrics)
      → s0 < 2 ^ 32
      → Reach true s0 m0 s
      → s.reader ≡ Reader.accepted since got latest
      → since < 2 ^ 31
      → (f : Field) → got f ≡ some (word latest f)
  Reach-no_tear {s} since got latest small r e =
      let (n, inv) = Reach-Inv small r in
      subst (λ x. ReaderFits s0 n s.published s.writer x) e inv.1
