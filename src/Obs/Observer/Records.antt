-- ===== src/Obs/Observer/Records.antt =====
-- What `SimpleObserver` counts as degraded.
use alpha_smart_router.Base.{
  ◌+◌, ◌%◌, ◌^◌, ◌≡◌, refl, ap, true, false, ◌&&◌, not, List, [], ◌∷◌, Text, text_eq, text_eq_iff,
  Bool-cases, arith, inl, inr,
}
use mathlib.Core.List.{Mem, mem-cons, mem-cons_self, mem-cons_of_mem, not-mem-nil}
use mathlib.Core.Logic.Or
use mathlib.Core.Bool.{Bool-set}
use alpha_smart_router.Routing.Doubles.{Doubles}
use alpha_smart_router.Routing.QosPolicy.{QosScore}
use alpha_smart_router.Obs.Observer.{Counters, DecisionEvent, degraded, record_event}

module _ (d : Doubles) where
  -- The selected path has a score that is out of its thresholds.
  abbrev pub Degraded : DecisionEvent d → Type 0
  Degraded e =
      (s : QosScore d) × Mem s e.scored
      × (s.path_id ≡ e.selected_path)
      × (s.within_thresholds ≡ false)

  degraded_of :
      (selected : Text) (scored : List (QosScore d)) (s : QosScore d)
      → Mem s scored
      → s.path_id ≡ selected
      → s.within_thresholds ≡ false
      → degraded d selected scored ≡ true
  unfolding degraded
  degraded_of selected [] s m same out = absurd (not-mem-nil m)
  degraded_of selected (t ∷ scored) s m same out =
      elim (Bool-cases (not t.within_thresholds && text_eq t.path_id selected)) [
        | inl hit ↦ rw (hit, degraded) refl
        | inr missed ↦
            rw (missed, degraded)
              (Or.elim (Bool-set _ _) (mem-cons.0 m)
                (λ e.
                  let equal : text_eq s.path_id selected ≡ true =
                    (text_eq_iff s.path_id selected).1 same in
                  absurd (
                    cc (
                      ap (λ (q : QosScore d). not q.within_thresholds && text_eq q.path_id selected)
                          e,
                      equal,
                      out,
                      missed,
                    )))
                (λ later. degraded_of selected scored s later same out))
      ]

  degraded_at :
      (selected : Text) (scored : List (QosScore d))
      → degraded d selected scored ≡ true
      → (s : QosScore d) × Mem s scored × (s.path_id ≡ selected) × (s.within_thresholds ≡ false)
  unfolding degraded
  degraded_at selected [] e = absurd (cc (e))
  degraded_at selected (t ∷ scored) e =
      elim (Bool-cases (not t.within_thresholds && text_eq t.path_id selected)) [
        | inl hit ↦
            (t, mem-cons_self, (text_eq_iff t.path_id selected).0 (ground arith), ground arith)
        | inr missed ↦
            let (s, m, same, out) = degraded_at selected scored (rw (missed, degraded) at e) in
            (s, mem-cons_of_mem t m, same, out)
      ]

  -- Each record counts one decision, and one degraded choice exactly if the selected path has a
  -- score that is out of its thresholds.
  pub record_event_lem :
      (ctr : Counters) (e : DecisionEvent d)
      → ((record_event d ctr e).decisions ≡ (ctr.decisions + 1) % 2 ^ 64)
        × (Degraded e
            → (record_event d ctr e).degraded_choices ≡ (ctr.degraded_choices + 1) % 2 ^ 64)
        × (¬ Degraded e → (record_event d ctr e).degraded_choices ≡ ctr.degraded_choices)
  unfolding record_event
  record_event_lem ctr e = (
    refl,
    λ (s, m, same, out). rw (degraded_of e.selected_path e.scored s m same out) refl,
    λ none_out. elim (Bool-cases (degraded d e.selected_path e.scored)) [
      | inl hit ↦ absurd (none_out (degraded_at e.selected_path e.scored hit))
      | inr missed ↦ rw missed refl
    ],
  )
