-- ===== src/Routing/PathSelection/Tests.antt =====
-- Path selection among three candidates, and a reader of a slot under an update.
use alpha_smart_router.Base.{ℕ, ◌≡◌, ◌⊎◌, refl, true, some, List, [], ◌∷◌, arith, get_elem?}
use alpha_smart_router.Routing.PathSelection.{
  PathMetrics, default_metrics, CandidateRef, PacketContext, attempt, load_metrics, is_healthy,
}
use alpha_smart_router.Routing.PathSelection.RoundRobinPolicy
use alpha_smart_router.Routing.PathSelection.FlowHashPolicy
use alpha_smart_router.Routing.PathSelection.LatencyAwarePolicy
use alpha_smart_router.Routing.PathSelection.LatencyAwarePolicy.{LatencyAwareConfig, default_config}
use alpha_smart_router.Routing.PathSelection.Cyclic.{Chosen, round_robin_lem, flow_hash_lem}
use alpha_smart_router.Routing.PathSelection.Fastest.{HealthyAt, NoneWell, NearTo}
use alpha_smart_router.Routing.PathSelection.Latency.{latency_lem}
use alpha_smart_router.Routing.PathSelection.RoundTrips.{latency_near}

abbrev slow : PathMetrics
slow = record default_metrics { rtt_us = 300; qos_class = 1; healthy = true }

abbrev fast : PathMetrics
fast = record default_metrics { rtt_us = 100; healthy = true }

abbrev candidate : ℕ → ℕ → PathMetrics → CandidateRef
candidate id seq m = record { id = id; slot = record { seq = seq; metrics = m } }

-- The first is unhealthy, and the third is under update.
abbrev cands : List CandidateRef
cands =
    candidate 10 0 default_metrics
    ∷ candidate 11 2 slow
    ∷ candidate 12 5 fast
    ∷ candidate 13 6 fast
    ∷ []

abbrev packet : PacketContext
packet = record { flow_hash = 5; dscp = 46 }

round_robin_lem_example :
    let (out, idx') = RoundRobinPolicy.choose 6 cands packet in
    (idx' ≡ 7) × ((c : CandidateRef) × (out ≡ some c.id) × Chosen cands 2 c)
round_robin_lem_example = round_robin_lem cands (omega arith) (omega arith) 6 packet

flow_hash_lem_example :
    (c : CandidateRef) × (FlowHashPolicy.choose true cands packet ≡ some c.id) × Chosen cands 1 c
flow_hash_lem_example = flow_hash_lem cands (omega arith) (omega arith) true packet

latency_lem_example :
    (k : ℕ) × (c : CandidateRef) × (get_elem? cands k ≡ some c)
    × ((LatencyAwarePolicy.choose default_config 7 cands packet).0 ≡ some c.id)
    × ((is_healthy c ≡ true) ⊎ NoneWell cands 4)
latency_lem_example = latency_lem default_config 7 cands packet (omega arith) (omega arith)

second-HealthyAt : HealthyAt cands 1 slow
unfolding load_metrics attempt
second-HealthyAt = record {
  candidate = candidate 11 2 slow;
  there = refl;
  loads = refl;
  well = refl;
}

-- One is healthy, and the margin is 200 with four candidates.
latency_near_example :
    (k : ℕ) × (m : PathMetrics) × (at : HealthyAt cands k m) × (LatencyAwarePolicy.choose
        default_config 7 cands packet
      ≡ (some at.candidate.id, 7))
    × NearTo cands 800 4 m
latency_near_example = latency_near default_config 7 cands packet 1 slow refl second-HealthyAt

abbrev classed : ℕ → ℕ → PathMetrics
classed rtt_us qos_class = record default_metrics {
  rtt_us = rtt_us;
  qos_class = qos_class;
  healthy = true;
}

-- Each is close to the best so far, and the last, 350 above the fastest, is chosen.
drifted :
    LatencyAwarePolicy.choose default_config 7
      (candidate 1 0 (classed 100 0)
        ∷ candidate 2 0 (classed 300 1)
        ∷ candidate 3 0 (classed 250 0)
        ∷ candidate 4 0 (classed 450 1)
        ∷ [])
      packet
    ≡ (some 4, 7)
unfolding LatencyAwarePolicy.choose load_metrics
drifted = refl
