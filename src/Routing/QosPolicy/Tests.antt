-- ===== src/Routing/QosPolicy/Tests.antt =====
-- The QoS policy over numbers of thousandths, as a `Doubles` that can be run.
use alpha_smart_router.Base.{◌≡◌, ◌⊎◌, true, false, none, some, List, [], ◌∷◌, text}
use alpha_smart_router.Routing.Doubles.Milli.{milli, milli-Ordered}
use alpha_smart_router.Routing.QosPolicy.{
  QosClass, QosThresholds, PathMetrics, QosScore, QosConfig, choose_best,
}
use alpha_smart_router.Routing.QosPolicy.Best.{IsBest, NoneCounts, choose_best_lem}

abbrev thresholds : QosThresholds milli
thresholds = record { max_latency_us = 10000; max_jitter_us = 5000; max_loss = 10 }

abbrev config : QosConfig milli
config = record {
  thresholds_by_class = (QosClass.realtime, record thresholds { max_latency_us = 4000 }) ∷ [];
  default_thresholds = thresholds;
  weights = record { latency = 600; jitter = 300; loss = 100 };
  dscp_by_class = (QosClass.realtime, 46) ∷ [];
}

abbrev fast : PathMetrics milli
fast = record { path_id = text "p1"; latency_us = 3000; jitter_us = 9000; loss = 0 }

abbrev slow : PathMetrics milli
slow = record { path_id = text "p2"; latency_us = 8000; jitter_us = 1000; loss = 0 }

choose_best_lem_example :
    ((◌≡◌ {A = List (PathMetrics milli)} (fast ∷ slow ∷ []) [])
      × (choose_best milli config (fast ∷ slow ∷ []) QosClass.bulk true ≡ none))
    ⊎ ((best : QosScore milli) × (choose_best milli config (fast ∷ slow ∷ []) QosClass.bulk true
          ≡ some best)
        × (IsBest milli milli-Ordered config QosClass.bulk true (fast ∷ slow ∷ []) best
            ⊎ (NoneCounts milli milli-Ordered config QosClass.bulk true (fast ∷ slow ∷ [])
                × IsBest milli milli-Ordered config QosClass.bulk false (fast ∷ slow ∷ []) best)))
choose_best_lem_example =
    choose_best_lem milli milli-Ordered config QosClass.bulk (fast ∷ slow ∷ []) true
