-- ===== src/Obs/Observer/Tests.antt =====
-- The observer on a decision of the failover policy.
use alpha_smart_router.Base.{◌≡◌, refl, true, false, some, List, [], ◌∷◌, text, text_eq}
use alpha_smart_router.Routing.Doubles.Milli.{milli}
use alpha_smart_router.Routing.QosPolicy.{QosClass, QosScore}
use alpha_smart_router.Routing.FailoverPolicy.{
  HealthState, PathHealth, FailoverDecision, FailoverConfig, evaluate, evaluate_best, best_of,
  improve, state_of,
}
use alpha_smart_router.Obs.Observer.{no_counters, DecisionEvent, record_event}
use alpha_smart_router.Obs.Observer.Triggers.{failover_uncounted}

abbrev scores : List (QosScore milli)
scores =
    record { path_id = text "p1"; score = 900; within_thresholds = true }
    ∷ record { path_id = text "p2"; score = 700; within_thresholds = false }
    ∷ []

abbrev config : FailoverConfig milli
config = record {
  primary_path_id = text "p1";
  return_to_primary = true;
  improve_pct_to_switch = 100;
  min_hold_ms = 3000;
  recovery_hold_ms = 5000;
}

abbrev health : List PathHealth
health =
    record { path_id = text "p1"; state = HealthState.down; last_change = 1 }
    ∷ record { path_id = text "p2"; state = HealthState.up; last_change = 1 }
    ∷ []

abbrev decision : FailoverDecision
decision = record { next_path_id = text "p2"; reason = text "current_down" }

abbrev event : DecisionEvent milli
event = record {
  decision_id = text "d1";
  selected_path = text "p2";
  clazz = QosClass.bulk;
  best_score = 700;
  strict_mode = false;
  scored = scores;
  reason = text "current_down";
}

decides : evaluate milli config (text "p1") scores health 5000000000 ≡ some decision
unfolding evaluate evaluate_best best_of improve state_of text_eq
decides = refl

failover_uncounted_example : (record_event milli no_counters event).failover_triggers ≡ 0
failover_uncounted_example =
    failover_uncounted milli config (text "p1") scores health 5000000000 decision no_counters event
      decides refl
