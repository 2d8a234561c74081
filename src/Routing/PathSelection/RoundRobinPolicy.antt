-- ===== src/Routing/PathSelection/RoundRobinPolicy.antt =====
-- `RoundRobinPolicy` of src/alpha/routing/path_selection.cpp.
use alpha_smart_router.Base.{ℕ, ◌+◌, ◌%◌, Option, some, List, ◌==◌, if◌then◌else◌}
use alpha_smart_router.Routing.PathSelection.{
  CandidateRef, PacketContext, u32_mod, count, scan_or_start,
}

-- `choose` on the counter `idx_`, with the counter that it leaves.
unfoldable pub choose : ℕ → List CandidateRef → PacketContext → Option ℕ × ℕ
unfolding scan_or_start
choose idx cands pkt =
    if count cands == 0
    then (some 0, idx)
    else (scan_or_start cands (count cands) (idx % count cands), (idx + 1) % u32_mod)
