-- ===== src/Routing/PolicyBinding.antt =====
-- The binding of a policy to the data plane: include/alpha/routing/policy_binding.hpp and
-- src/alpha/routing/policy_binding.cpp, at the three policies of the repository, and the binding at
-- compile time of include/alpha/routing/path_selection.hpp.
-- A `void*` is the address of a policy object, none for null, in a memory of such objects. A result
-- `none` is undefined behaviour: a dangling address, a cast to another class, a call of null. One
-- call at a time, as in PathSelection.
pub mod Calls
pub mod Bound
pub mod Threads
mod Tests
use alpha_smart_router.Base.{
  ℕ, zero, suc, ◌+◌, ◌%◌, bit_and, bit_or, Bool, true, false, ◌&&◌, Option, none, some, List, ◌==◌,
  if◌then◌else◌,
}
use alpha_smart_router.Routing.PathSelection.{CandidateRef, PacketContext, u32_mod}
use alpha_smart_router.Routing.PathSelection.RoundRobinPolicy
use alpha_smart_router.Routing.PathSelection.FlowHashPolicy
use alpha_smart_router.Routing.PathSelection.LatencyAwarePolicy
use alpha_smart_router.Routing.PathSelection.LatencyAwarePolicy.{LatencyAwareConfig}

-- A policy object of one of the classes, with its fields.
pub data Policy : Type 0 where
  round_robin : (idx : ℕ) → Policy
  flow_hash : (skip_unhealthy : Bool) → Policy
  latency_aware : (cfg : LatencyAwareConfig) (salt : ℕ) → Policy

-- `ChooseFn`: the address of a `choose_thunk<Policy>`, by the class that it is instantiated at.
pub data ChooseFn : Type 0 where
  round_robin_thunk flow_hash_thunk latency_aware_thunk : ChooseFn

-- `&detail::choose_thunk<Policy>` for the class of an object
abbrev pub thunk_of : Policy → ChooseFn
thunk_of (round_robin idx) = round_robin_thunk
thunk_of (flow_hash skip_unhealthy) = flow_hash_thunk
thunk_of (latency_aware cfg salt) = latency_aware_thunk

-- The id that a policy chose, with the object as it leaves it.
abbrev pub outcome : Option ℕ → Policy → Option (ℕ × Policy)
outcome none p = none
outcome (some id) p = some (id, p)

-- `select_path(policy, cands, pkt)`, the binding at compile time: the object's own `choose`.
unfoldable pub select_static : Policy → List CandidateRef → PacketContext → Option (ℕ × Policy)
select_static (round_robin idx) cands pkt =
    let (out, idx') = RoundRobinPolicy.choose idx cands pkt in outcome out (round_robin idx')
select_static (flow_hash skip_unhealthy) cands pkt =
    outcome (FlowHashPolicy.choose skip_unhealthy cands pkt) (flow_hash skip_unhealthy)
select_static (latency_aware cfg salt) cands pkt =
    let (out, salt') = LatencyAwarePolicy.choose cfg salt cands pkt in
    outcome out (latency_aware cfg salt')

-- `choose_thunk<Policy>(state, cands, pkt)`, on the object at `state`.
unfoldable pub choose_thunk :
    ChooseFn → Policy → List CandidateRef → PacketContext → Option (ℕ × Policy)
choose_thunk round_robin_thunk (round_robin idx) cands pkt =
    let (out, idx') = RoundRobinPolicy.choose idx cands pkt in outcome out (round_robin idx')
choose_thunk flow_hash_thunk (flow_hash skip_unhealthy) cands pkt =
    outcome (FlowHashPolicy.choose skip_unhealthy cands pkt) (flow_hash skip_unhealthy)
choose_thunk latency_aware_thunk (latency_aware cfg salt) cands pkt =
    let (out, salt') = LatencyAwarePolicy.choose cfg salt cands pkt in
    outcome out (latency_aware cfg salt')
choose_thunk fn p cands pkt = none

-- The policy objects by address.
abbrev pub Memory : Type 0
Memory = ℕ → Option Policy

abbrev pub put : Memory → ℕ → Policy → Memory
put memory a p b = if a == b then some p else memory b

pub record PolicyBinding : Type 0 where
  pub seq : ℕ
  pub fn : Option ChooseFn
  pub state : Option ℕ

-- `PolicyBinding{}`
abbrev pub unbound : PolicyBinding
unbound = record { seq = 0; fn = none; state = none }

-- `cp::publish_policy<Policy>` of the object at `policy`, at the class whose thunk is `fn`.
unfoldable pub publish_policy : PolicyBinding → (fn : ChooseFn) (policy : ℕ) → PolicyBinding
publish_policy b fn policy = record {
  seq = (bit_or b.seq 1 + 1) % u32_mod;
  fn = some fn;
  state = some policy;
}

-- `cp::clear_policy`
unfoldable pub clear_policy : PolicyBinding → PolicyBinding
clear_policy b = record { seq = (bit_or b.seq 1 + 1) % u32_mod; fn = none; state = none }

-- `fn && st`
abbrev pub both : Option ChooseFn → Option ℕ → Bool
both (some fn) (some st) = true
both fn st = false

-- The loop of `dp::snapshot_binding`, with `rounds` attempts left: its result, and what it puts out.
unfoldable pub attempt : (rounds : ℕ) → PolicyBinding → Bool × Option ChooseFn × Option ℕ
attempt zero b = (false, none, none)
attempt (suc rounds) b =
    let rest = attempt rounds b in
    if bit_and b.seq 1 == 0
    then (if (b.seq == b.seq) && (b.seq % 2 == 0) then (both b.fn b.state, b.fn, b.state) else rest)
    else rest

unfoldable pub snapshot_binding : PolicyBinding → Bool × Option ChooseFn × Option ℕ
unfolding attempt
snapshot_binding b = attempt 4 b

-- `fn(st, cands, pkt)`
unfoldable pub call :
    Option ChooseFn → Option ℕ → Memory → List CandidateRef → PacketContext → Option (ℕ × Memory)
unfolding choose_thunk
call (some fn) (some st) memory cands pkt = elim (memory st) [
  | none ↦ none
  | some p ↦ elim (choose_thunk fn p cands pkt) [
    | none ↦ none
    | some (id, p') ↦ some (id, put memory st p')
  ]
]
call fn st memory cands pkt = none

-- `dp::select_path`
unfoldable pub select_path :
    PolicyBinding → Memory → List CandidateRef → PacketContext → Option (ℕ × Memory)
unfolding snapshot_binding call
select_path b memory cands pkt =
    let (ok, fn, st) = snapshot_binding b in
    if ok then call fn st memory cands pkt else some (0, memory)

-- `WorkerPolicyView`: the binding that it points to, or none for null.
abbrev pub WorkerPolicyView : Type 0
WorkerPolicyView = Option PolicyBinding

-- `WorkerPolicyView::choose`
unfoldable pub choose :
    WorkerPolicyView → Memory → List CandidateRef → PacketContext → Option (ℕ × Memory)
unfolding select_path
choose none memory cands pkt = some (0, memory)
choose (some b) memory cands pkt = select_path b memory cands pkt
