-- ===== src/Os/Rt/Linux.antt =====
-- src/alpha/os/rt_linux.cpp
use alpha_smart_router.Base.{Bool, true, ◌==◌}
use alpha_smart_router.Os.Rt.{ℤ, pos, negsuc, RtConfig, Pthread, and_sched}

module _ (p : Pthread) where
  open p use {Thread, cpu_zero, cpu_set, setaffinity}

  unfoldable pub set_affinity : ℤ → Thread → Bool × Thread
  set_affinity (negsuc n) t = (true, t)
  set_affinity (pos cpu) t =
      let (error, t') = setaffinity (cpu_set cpu cpu_zero) t in (error == 0, t')

  unfoldable pub bind_and_prioritize : RtConfig → Thread → Bool × Thread
  unfolding set_affinity and_sched
  bind_and_prioritize cfg t = and_sched p cfg (set_affinity cfg.cpu t)
