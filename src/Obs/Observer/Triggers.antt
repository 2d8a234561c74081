-- ===== src/Obs/Observer/Triggers.antt =====
-- The failover policy's reasons, as `SimpleObserver` reads them.
use alpha_smart_router.Base.{
  ℕ, ◌≡◌, refl, ◌∙◌, ap, subst, Bool, true, false, Option, none, some, List, if◌then◌else◌, Text,
  text, inl, inr, Option-cases,
}
use alpha_smart_router.Routing.Doubles.{Doubles}
use alpha_smart_router.Routing.QosPolicy.{QosScore}
use alpha_smart_router.Routing.FailoverPolicy.{
  PathHealth, FailoverDecision, FailoverConfig, find_score, best_of, to_primary, to_scored_primary,
  from_current, evaluate_best, evaluate,
}
use alpha_smart_router.Obs.Observer.{
  Counters, DecisionEvent, contains, starts_with, record_event, increment,
}

-- A decision whose reason does not name a failover.
data Unseen : Option FailoverDecision → Type 0 where
  nothing : Unseen none
  unnamed :
      (decision : FailoverDecision)
      → contains (text "failover") decision.reason ≡ false
      → Unseen (some decision)

reason_unnamed :
    {decision : FailoverDecision}
    → Unseen (some decision)
    → contains (text "failover") decision.reason ≡ false
reason_unnamed (unnamed decision e) = e

if-Unseen :
    (test : Bool) (x y : Option FailoverDecision)
    → Unseen x
    → Unseen y
    → Unseen (if test then x else y)
if-Unseen true x y ux uy = ux
if-Unseen false x y ux uy = uy

module _ (d : Doubles) (cfg : FailoverConfig d) (current : Text) (scores : List (QosScore d))
    (health : List PathHealth) (now : ℕ) where
  to_scored_primary-Unseen :
      (best : QosScore d) (prim : Option (QosScore d))
      → Unseen (to_scored_primary d cfg health now best prim)
  unfolding to_scored_primary contains starts_with
  to_scored_primary-Unseen best none = nothing
  to_scored_primary-Unseen best (some prim) = if-Unseen _ _ _ (unnamed _ refl) nothing

  to_primary-Unseen : (best : QosScore d) → Unseen (to_primary d cfg current scores health now best)
  unfolding to_primary
  to_primary-Unseen best =
      if-Unseen _ _ _ (to_scored_primary-Unseen best (find_score d scores cfg.primary_path_id))
        nothing

  from_current-Unseen :
      (best : QosScore d) (cur : Option (QosScore d))
      → Unseen (from_current d cfg current scores health now best cur)
  unfolding from_current contains starts_with
  from_current-Unseen best none = unnamed _ refl
  from_current-Unseen best (some cur) = if-Unseen _ _ _ (unnamed _ refl) (to_primary-Unseen best)

  evaluate_best-Unseen :
      (best : QosScore d) → Unseen (evaluate_best d cfg current scores health now best)
  unfolding evaluate_best contains starts_with
  evaluate_best-Unseen best =
      if-Unseen _ _ _ (unnamed _ refl) (from_current-Unseen best (find_score d scores current))

  evaluate-Unseen : Unseen (evaluate d cfg current scores health now)
  unfolding evaluate
  evaluate-Unseen = elim (Option-cases (best_of d health none scores)) [
    | inl none_best ↦ rw (none_best, evaluate) nothing
    | inr (b, e) ↦ rw (e, evaluate) (evaluate_best-Unseen b)
  ]

  -- A record with the reason of any decision of the failover policy leaves the count of failovers as
  -- it was.
  pub failover_uncounted :
      (decision : FailoverDecision) (ctr : Counters) (e : DecisionEvent d)
      → evaluate d cfg current scores health now ≡ some decision
      → e.reason ≡ decision.reason
      → (record_event d ctr e).failover_triggers ≡ ctr.failover_triggers
  unfolding record_event
  failover_uncounted decision ctr e decides same =
      let unseen : contains (text "failover") decision.reason ≡ false =
        reason_unnamed (subst Unseen decides evaluate-Unseen) in
      ap (λ b. if b then increment ctr.failover_triggers else ctr.failover_triggers)
        (ap (contains (text "failover")) same ∙ unseen)
