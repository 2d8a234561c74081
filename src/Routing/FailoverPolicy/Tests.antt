-- ===== src/Routing/FailoverPolicy/Tests.antt =====
-- The failover policy with three paths.
use alpha_smart_router.Base.{
  ℕ, ◌≡◌, ◌≢◌, refl, true, false, some, List, [], ◌∷◌, Text, text, text_eq,
}
use mathlib.Core.List.{Mem}
use alpha_smart_router.Routing.Doubles.Milli.{milli}
use mathlib.Core.Option as Option
use alpha_smart_router.Routing.QosPolicy.{QosClass, PathMetrics, QosScore, QosConfig, choose_best}
use alpha_smart_router.Routing.FailoverPolicy.{
  HealthState, PathHealth, FailoverConfig, is_down, state_of, evaluate, evaluate_best, best_of,
  improve,
}
use alpha_smart_router.Routing.FailoverPolicy.Switches.{evaluate_safe}
use alpha_smart_router.Routing.FailoverPolicy.Scored.{scores_of, standing, evaluate-choose_best}

abbrev config : FailoverConfig milli
config = record {
  primary_path_id = text "p1";
  return_to_primary = true;
  improve_pct_to_switch = 100;
  min_hold_ms = 3000;
  recovery_hold_ms = 5000;
}

abbrev score : Text → ℕ → QosScore milli
score id points = record { path_id = id; score = points; within_thresholds = true }

abbrev scores : List (QosScore milli)
scores = score (text "p1") 900 ∷ score (text "p2") 700 ∷ score (text "p3") 800 ∷ []

abbrev path : Text → HealthState → ℕ → PathHealth
path id state last = record { path_id = id; state = state; last_change = last }

abbrev health : List PathHealth
health =
    path (text "p1") HealthState.down 1000000000
    ∷ path (text "p2") HealthState.up 1000000000
    ∷ path (text "p3") HealthState.degraded 1000000000
    ∷ []

p1-down : is_down (state_of (text "p1") health) ≡ true
unfolding state_of text_eq
p1-down = refl

p2-alive : is_down (state_of (text "p2") health) ≡ false
unfolding state_of text_eq
p2-alive = refl

switches :
    evaluate milli config (text "p1") scores health 5000000000
    ≡ some (record { next_path_id = text "p3"; reason = text "current_down" })
unfolding evaluate evaluate_best best_of improve state_of text_eq
switches = refl

evaluate_safe_example :
    (◌≢◌ {A = Text} (text "p3") (text "p1"))
    × (is_down (state_of (text "p3") health) ≡ false)
    × ((s : QosScore milli) × Mem s scores × (s.path_id ≡ text "p3"))
evaluate_safe_example =
    evaluate_safe milli config (text "p1") scores health 5000000000
      (record { next_path_id = text "p3"; reason = text "current_down" }) switches

abbrev qos : QosConfig milli
qos = record {
  thresholds_by_class = [];
  default_thresholds = record { max_latency_us = 10000; max_jitter_us = 5000; max_loss = 10 };
  weights = record { latency = 600; jitter = 300; loss = 100 };
  dscp_by_class = [];
}

abbrev measured : List (PathMetrics milli)
measured =
    record { path_id = text "p1"; latency_us = 1000; jitter_us = 1000; loss = 0 }
    ∷ record { path_id = text "p2"; latency_us = 20000; jitter_us = 1000; loss = 0 }
    ∷ record { path_id = text "p3"; latency_us = 12000; jitter_us = 1000; loss = 0 }
    ∷ []

evaluate-choose_best_example :
    evaluate milli config (text "p1") (scores_of milli qos QosClass.bulk health measured) health 0
    ≡ Option.map
        (λ (best : QosScore milli). record {
          next_path_id = best.path_id;
          reason = text "current_down";
        })
        (choose_best milli qos
          (standing milli qos QosClass.bulk health measured)
          QosClass.bulk
          false)
evaluate-choose_best_example =
    evaluate-choose_best milli qos QosClass.bulk health config (text "p1") measured 0 p1-down
