-- ===== src/Routing/FailoverPolicy/Scores.antt =====
-- What `FailoverPolicy` finds in the list of scores for a path.
use alpha_smart_router.Base.{
  ◌≡◌, ◌≢◌, inl, inr, ◌∙◌, sym, ap, none, some, List, [], ◌∷◌, Text, text_eq_cases,
}
use mathlib.Core.Logic.Or
use mathlib.Core.List.{Mem, mem-cons, mem-cons_self, mem-cons_of_mem, not-mem-nil}
use alpha_smart_router.Routing.Doubles.{Doubles}
use alpha_smart_router.Routing.QosPolicy.{QosScore}
use alpha_smart_router.Routing.FailoverPolicy.{find_score}

module _ (d : Doubles) where
  pub find_score-some :
      (scores : List (QosScore d)) (id : Text) {s : QosScore d}
      → find_score d scores id ≡ some s
      → Mem s scores × (s.path_id ≡ id)
  unfolding find_score
  find_score-some [] id e = absurd (cc (e))
  find_score-some (t ∷ scores) id {s} e = elim (text_eq_cases t.path_id id) [
    | inl (equal, same) ↦
        let one : t ≡ s = cc (rw (equal, find_score) at e) in
        (rw (← one) mem-cons_self, ap (λ (q : QosScore d). q.path_id) (sym one) ∙ same)
    | inr (differ, apart) ↦
        let (there, same) = find_score-some scores id (rw (differ, find_score) at e) in
        (mem-cons_of_mem t there, same)
  ]

  pub find_score-none :
      (scores : List (QosScore d)) (id : Text) (s : QosScore d)
      → find_score d scores id ≡ none
      → Mem s scores
      → s.path_id ≢ id
  unfolding find_score
  find_score-none [] id s e m = absurd (not-mem-nil m)
  find_score-none (t ∷ scores) id s e m = λ same. elim (text_eq_cases t.path_id id) [
    | inl (equal, here) ↦ cc (rw (equal, find_score) at e)
    | inr (differ, apart) ↦
        Or.elim (λ x y. absurd x) (mem-cons.0 m)
          (λ here. apart (ap (λ (q : QosScore d). q.path_id) (sym here) ∙ same))
          (λ later. find_score-none scores id s (rw (differ, find_score) at e) later same)
  ]
