-- ===== src/Config/Loader/Tests.antt =====
-- The loaded configuration over numbers of thousandths.
use alpha_smart_router.Base.{◌≡◌, ◌≢◌, refl, true, some, List, [], ◌∷◌, arith, Text, text, text_eq}
use alpha_smart_router.Routing.Doubles.Milli.{milli, milli-div}
use alpha_smart_router.Routing.QosPolicy.{realtime, PathMetrics, QosScore, score_path}
use alpha_smart_router.Routing.FailoverPolicy.{HealthState, PathHealth, FailoverDecision, evaluate}
use alpha_smart_router.Config.Loader.{load_from_file}
use alpha_smart_router.Config.Loader.Defaults.{Monotone, load_returns}

milli-Monotone : Monotone milli
milli-Monotone = record {
  ge_trans = λ a b c p q. ground arith;
  div_mono =
      λ a b n k pos_b small_b pos_k small_k small_a small_n le. milli-div a b n k pos_b pos_k le;
}

abbrev path : Text
path = text "router.toml"

abbrev call : PathMetrics milli
call = record { path_id = text "p1"; latency_us = 3000; jitter_us = 1000; loss = 2 }

call-within :
    (score_path milli (load_from_file milli path).qos call realtime).within_thresholds ≡ true
unfolding load_from_file score_path
call-within = refl

abbrev scores : List (QosScore milli)
scores = record { path_id = text "p2"; score = 700; within_thresholds = true } ∷ []

abbrev health : List PathHealth
health = record { path_id = text "p2"; state = HealthState.up; last_change = 1000000000 } ∷ []

abbrev decision : FailoverDecision
decision = record { next_path_id = text "p2"; reason = text "current_down" }

decides :
    evaluate milli (load_from_file milli path).failover (text "p1") scores health 0 ≡ some decision
unfolding load_from_file evaluate text_eq
decides = refl

load_returns_example :
    ((load_from_file milli path).failover.return_to_primary ≡ true)
    × (decision.reason ≢ text "return_to_primary")
load_returns_example = load_returns milli path (text "p1") scores health 0 decision decides
