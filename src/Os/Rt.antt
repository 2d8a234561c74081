-- ===== src/Os/Rt.antt =====
-- `bind_and_prioritize` of include/alpha/os/rt.hpp, as src/alpha/os/rt_linux.cpp and
-- src/alpha/os/rt_qnx.cpp implement it, and the priorities of include/alpha/os/rt_profile.hpp.
-- The calls of the thread library are a parameter, which acts on the attributes of the calling
-- thread; `Documented` says of it what its manual does.
pub mod Linux
pub mod Qnx
pub mod Outcomes
mod Tests
use alpha_smart_router.Base.{ℕ, ◌≡◌, ◌≢◌, Bool, true, false, ◌==◌, if◌then◌else◌}

-- `int`; `negsuc n` is -(n + 1).
pub data ℤ : Type 0 where
  pos : ℕ → ℤ
  negsuc : ℕ → ℤ

pub data RtSchedPolicy : Type 0 where
  fifo round_robin : RtSchedPolicy

pub record RtConfig : Type 0 where
  pub cpu : ℤ
  pub policy : RtSchedPolicy
  pub priority : ℤ

-- `RtConfig{}` with a priority
abbrev pub default_config : ℤ → RtConfig
default_config priority = record { cpu = negsuc 0; policy = fifo; priority = priority }

abbrev pub k_default : ℤ
k_default = pos 50

abbrev pub k_rx : ℤ
k_rx = pos 60

abbrev pub k_tx : ℤ
k_tx = pos 70

abbrev pub k_watchdog : ℤ
k_watchdog = pos 80

-- A call returns 0 or the number of an error, and the thread as it leaves it.
pub record Pthread : Type 1 where
  pub Thread : Type 0
  pub Mask : Type 0
  pub cpu_zero : Mask  -- CPU_ZERO
  pub cpu_set : ℕ → Mask → Mask  -- CPU_SET
  pub sched_fifo : ℕ  -- SCHED_FIFO
  pub sched_rr : ℕ  -- SCHED_RR
  pub setaffinity : Mask → Thread → ℕ × Thread  -- pthread_setaffinity_np(pthread_self(), ...)
  pub setschedparam : ℕ → ℤ → Thread → ℕ × Thread  -- pthread_setschedparam(pthread_self(), ...)
  pub affinity : Thread → Mask
  pub scheduling : Thread → ℕ × ℤ

-- A call that succeeds sets its attribute and no other, one that fails changes nothing.
pub record Documented (p : Pthread) : Type 0 where
  pub affinity_set :
      (m : p.Mask) (t : p.Thread) → (p.setaffinity m t).0 ≡ 0 → p.affinity (p.setaffinity m t).1 ≡ m
  pub affinity_only :
      (m : p.Mask) (t : p.Thread) → p.scheduling (p.setaffinity m t).1 ≡ p.scheduling t
  pub affinity_fails :
      (m : p.Mask) (t : p.Thread) → (p.setaffinity m t).0 ≢ 0 → (p.setaffinity m t).1 ≡ t
  pub scheduling_set :
      (policy : ℕ) (priority : ℤ) (t : p.Thread)
      → (p.setschedparam policy priority t).0 ≡ 0
      → p.scheduling (p.setschedparam policy priority t).1 ≡ (policy, priority)
  pub scheduling_only :
      (policy : ℕ) (priority : ℤ) (t : p.Thread)
      → p.affinity (p.setschedparam policy priority t).1 ≡ p.affinity t
  pub scheduling_fails :
      (policy : ℕ) (priority : ℤ) (t : p.Thread)
      → (p.setschedparam policy priority t).0 ≢ 0
      → (p.setschedparam policy priority t).1 ≡ t

module _ (p : Pthread) where
  open p use {Thread, cpu_zero, cpu_set, sched_fifo, sched_rr, setaffinity, setschedparam}

  -- The constant of a policy.
  abbrev pub class_of : RtSchedPolicy → ℕ
  class_of round_robin = sched_rr
  class_of fifo = sched_fifo

  -- `set_sched`, which is the same on both systems
  unfoldable pub set_sched : RtSchedPolicy → ℤ → Thread → Bool × Thread
  set_sched pol prio t = let (error, t') = setschedparam (class_of pol) prio t in (error == 0, t')

  -- `ok = ok && set_sched(...)`
  unfoldable pub and_sched : RtConfig → Bool × Thread → Bool × Thread
  unfolding set_sched
  and_sched cfg (true, t) = set_sched cfg.policy cfg.priority t
  and_sched cfg (false, t) = (false, t)
