-- ===== src/Os/Rt/Qnx.antt =====
-- src/alpha/os/rt_qnx.cpp; its `set_sched` is that of the other system.
use alpha_smart_router.Base.{Bool, true, false}
use alpha_smart_router.Os.Rt.{ℤ, pos, negsuc, RtConfig, Pthread, and_sched}

module _ (p : Pthread) where
  open p use {Thread}

  unfoldable pub set_affinity : ℤ → Thread → Bool × Thread
  set_affinity (negsuc n) t = (true, t)
  set_affinity (pos cpu) t = (false, t)

  unfoldable pub bind_and_prioritize : RtConfig → Thread → Bool × Thread
  unfolding set_affinity and_sched
  bind_and_prioritize cfg t = and_sched p cfg (set_affinity cfg.cpu t)
