-- ===== src/Routing/PathSelection/Slots.antt =====
-- Writing and reading a metrics slot.
use alpha_smart_router.Base.{
  ℕ, zero, suc, ◌+◌, ◌%◌, ◌≡◌, refl, ◌∙◌, bit_or, true, none, some, arith, ◌==◌, if◌then◌else◌,
  bit_and-one, bit_or-one,
}
use alpha_smart_router.Routing.PathSelection.{
  u32_mod, PathMetrics, MetricsSlot, update_metrics, attempt, load_metrics,
}

attempt_lem :
    (rounds : ℕ) (s : MetricsSlot)
    → attempt (suc rounds) s ≡ (if s.seq % 2 == 0 then some s.metrics else none)
unfolding attempt
attempt_lem zero s = ground (arith, bit_and-one s.seq)
attempt_lem (suc rounds) s = ground (arith, bit_and-one s.seq, attempt_lem rounds s)

-- While nobody writes, a load finds the metrics exactly if the sequence number is even.
pub load_metrics_lem :
    (s : MetricsSlot) → load_metrics s ≡ (if s.seq % 2 == 0 then some s.metrics else none)
unfolding load_metrics
load_metrics_lem s = attempt_lem 3 s

-- Whatever the sequence number was, odd or about to wrap, a load after an update finds the new
-- metrics.
pub load-update : (s : MetricsSlot) (m : PathMetrics) → load_metrics (update_metrics s m) ≡ some m
unfolding update_metrics
load-update s m = load_metrics_lem (update_metrics s m) ∙ rw even refl
  where
    even : ((bit_or s.seq 1 + 1) % u32_mod % 2 == 0) ≡ true
    even = ground (arith, bit_or-one s.seq)
