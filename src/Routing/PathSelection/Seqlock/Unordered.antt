-- ===== src/Routing/PathSelection/Seqlock/Unordered.antt =====
-- What a reader of a metrics slot, of src/alpha/routing/path_selection.cpp, can accept where the
-- accesses do not take effect in the order of the program.
use alpha_smart_router.Base.{
  ℕ, ◌≡◌, ◌≢◌, ◌%◌, refl, ◌∙◌, Bool, true, sym, ap, inl, inr, Bool-cases, false, Option, none, some,
  bit_and-one,
}
use alpha_smart_router.Routing.PathSelection.{PathMetrics}
use alpha_smart_router.Routing.PathSelection.Seqlock.{
  Field, rtt_us, one_way_delay_us, loss_ppm, avail_kbps, qos_class, healthy, word, put, same_field,
  Writer, Reader, Shared, enter_held, write, begin, read, accept, Reach, here, next,
}
use alpha_smart_router.Routing.PathSelection.Seqlock.Torn.{same_field_eq}

-- The cells when one field of an update has been written over the old ones.
abbrev early : PathMetrics → PathMetrics → Field → Field → ℕ
early old m f = put (word old) f (word m f)

-- All fields as the reader gets them, one of the update and the rest old.
abbrev mixed : PathMetrics → PathMetrics → Field → Field → Option ℕ
mixed old m f =
    let c = early old m f in
    let one = put (λ g. none) rtt_us (some (c rtt_us)) in
    let two = put one one_way_delay_us (some (c one_way_delay_us)) in
    let three = put two loss_ppm (some (c loss_ppm)) in
    let four = put three avail_kbps (some (c avail_kbps)) in
    let five = put four qos_class (some (c qos_class)) in put five healthy (some (c healthy))

mixed-all : (old m : PathMetrics) (f g : Field) → mixed old m f g ≡ some (early old m f g)
mixed-all old m f rtt_us = refl
mixed-all old m f one_way_delay_us = refl
mixed-all old m f loss_ppm = refl
mixed-all old m f avail_kbps = refl
mixed-all old m f qos_class = refl
mixed-all old m f healthy = refl

some_read : (old m : PathMetrics) (f g : Field) → mixed old m f g ≢ none
some_read old m f g e = cc (mixed-all old m f g, e)

put-other {ℓ} :
    {A : Type ℓ} (cells : Field → A) (f : Field) (a : A) (g : Field)
    → same_field f g ≡ false
    → put cells f a g ≡ cells g
put-other {A = A} cells f a g apart =
    ap (λ (b : Bool). elim b as (λ _. A) [ true ↦ a | false ↦ cells g ]) apart

early-own : (old m : PathMetrics) (f : Field) → early old m f f ≡ word m f
early-own old m rtt_us = refl
early-own old m one_way_delay_us = refl
early-own old m loss_ppm = refl
early-own old m avail_kbps = refl
early-own old m qos_class = refl
early-own old m healthy = refl

early-other : (old m : PathMetrics) (f g : Field) → g ≢ f → early old m f g ≡ word old g
early-other old m f g differ = elim (Bool-cases (same_field f g)) [
  | inl same ↦ absurd (differ (sym (same_field_eq f g same)))
  | inr apart ↦ put-other (word old) f (word m f) g apart
]

-- The reader between its two loads, having read all fields.
abbrev between : ℕ → PathMetrics → PathMetrics → Field → Shared
between s0 old m f = record {
  seq = s0;
  cells = early old m f;
  writer = Writer.writing m s0;
  reader = Reader.reading 3 s0 0 (mixed old m f);
  published = old;
}

between-Reach :
    (s0 : ℕ) (old m : PathMetrics) (f : Field)
    → s0 % 2 ≡ 0
    → Reach false s0 old (between s0 old m f)
between-Reach s0 old m f even =
    next
      (next
        (next
          (next
            (next
              (next
                (next (next (next here (enter_held m refl refl)) (write f refl))
                  (begin refl (bit_and-one s0 ∙ even)))
                (read rtt_us refl))
              (read one_way_delay_us refl))
            (read loss_ppm refl))
          (read avail_kbps refl))
        (read qos_class refl))
      (read healthy refl)

-- Where the accesses of a thread need not take effect in the order of its program, as in the source:
-- from any slot with an even sequence number, whatever it holds, whatever an update writes and
-- whatever the field, a reader can accept a snapshot in which that field is of the update and all
-- others are old, though no update was published between its two loads of the sequence number.
pub unordered_tears :
    (s0 : ℕ) (old m : PathMetrics) (f : Field)
    → s0 % 2 ≡ 0
    → (s : Shared) × (got : Field → Option ℕ) × Reach false s0 old s
      × (s.reader ≡ Reader.accepted 0 got old)
      × (got f ≡ some (word m f))
      × ((g : Field) → g ≢ f → got g ≡ some (word old g))
unordered_tears s0 old m f even = (
  _,
  mixed old m f,
  next (between-Reach s0 old m f even) (accept refl (some_read old m f) refl even),
  refl,
  mixed-all old m f f ∙ ap some (early-own old m f),
  λ g differ. mixed-all old m f g ∙ ap some (early-other old m f g differ),
)
