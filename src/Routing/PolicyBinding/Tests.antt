-- ===== src/Routing/PolicyBinding/Tests.antt =====
-- A binding to a round-robin policy at address 3, at two candidates.
use alpha_smart_router.Base.{◌≡◌, refl, true, none, some, List, [], ◌∷◌}
use alpha_smart_router.Routing.PathSelection.{
  PathMetrics, default_metrics, CandidateRef, PacketContext, attempt, load_metrics, is_healthy,
}
use alpha_smart_router.Routing.PathSelection.RoundRobinPolicy
use alpha_smart_router.Routing.PolicyBinding.{
  ChooseFn, Policy, select_static, Memory, put, PolicyBinding, publish_policy, select_path,
}
use alpha_smart_router.Routing.PolicyBinding.Calls.{write_back, select-publish}

abbrev well : PathMetrics
well = record default_metrics { rtt_us = 100; healthy = true }

abbrev cands : List CandidateRef
cands =
    record { id = 20; slot = record { seq = 4; metrics = well } }
    ∷ record { id = 21; slot = record { seq = 2; metrics = well } }
    ∷ []

abbrev packet : PacketContext
packet = record { flow_hash = 5; dscp = 46 }

abbrev memory : Memory
memory = put (λ a. none) 3 (Policy.round_robin 7)

-- Bound before to another object, by a writer that has not finished.
abbrev half : PolicyBinding
half = record { seq = 9; fn = some ChooseFn.flow_hash_thunk; state = some 1 }

chosen :
    select_path (publish_policy half ChooseFn.round_robin_thunk 3) memory cands packet
    ≡ some (21, put memory 3 (Policy.round_robin 8))
unfolding select_path publish_policy is_healthy load_metrics attempt RoundRobinPolicy.choose
chosen = refl

-- A function of one class on an object of another.
confused : select_path (publish_policy half ChooseFn.flow_hash_thunk 3) memory cands packet ≡ none
unfolding select_path publish_policy
confused = refl

select-publish_example :
    select_path (publish_policy half ChooseFn.round_robin_thunk 3) memory cands packet
    ≡ write_back memory 3 (select_static (Policy.round_robin 7) cands packet)
select-publish_example = select-publish half memory 3 (Policy.round_robin 7) cands packet refl
