-- ===== src/Routing/PathSelection/FlowHashPolicy.antt =====
-- `FlowHashPolicy` of src/alpha/routing/path_selection.cpp.
use alpha_smart_router.Base.{ℕ, ◌%◌, Bool, Option, some, List, ◌==◌, if◌then◌else◌}
use alpha_smart_router.Routing.PathSelection.{
  CandidateRef, PacketContext, count, scan_or_start, id_at,
}

unfoldable pub choose : (skip_unhealthy : Bool) → List CandidateRef → PacketContext → Option ℕ
unfolding scan_or_start
choose skip_unhealthy cands pkt =
    let base = pkt.flow_hash % count cands in
    if count cands == 0
    then some 0
    else if skip_unhealthy
    then scan_or_start cands (count cands) base
    else id_at cands base
