-- ===== src/Os/Rt/Tests.antt =====
-- A machine of four processors, whose kernel grants priorities up to 99 if it is asked by root.
use alpha_smart_router.Base.{
  ℕ, ◌≡◌, refl, Bool, true, false, List, [], ◌∷◌, ltb, leb, ◌&&◌, if◌then◌else◌, arith,
}
use alpha_smart_router.Os.Rt.{ℤ, pos, negsuc, RtConfig, default_config, k_rx, Pthread, Documented}
use alpha_smart_router.Os.Rt.Linux
use alpha_smart_router.Os.Rt.Outcomes.{Outcome, linux-Outcome}

pub record Attributes : Type 0 where
  pub root : Bool
  pub cpus : List ℕ
  pub policy : ℕ
  pub priority : ℤ

abbrev small : List ℕ → Bool
small [] = false
small (cpu ∷ cpus) = ltb cpu 4

abbrev granted : Bool → ℤ → Bool
granted root (pos priority) = root && leb priority 99
granted root (negsuc n) = false

abbrev machine : Pthread
machine = record {
  Thread = Attributes;
  Mask = List ℕ;
  cpu_zero = [];
  cpu_set = λ cpu m. cpu ∷ m;
  sched_fifo = 1;
  sched_rr = 2;
  setaffinity = λ m t. if small m then (0, record t { cpus = m }) else (22, t);
  setschedparam = λ policy priority t.
      if granted t.root priority
      then (0, record t { policy = policy; priority = priority })
      else (1, t);
  affinity = λ t. t.cpus;
  scheduling = λ t. (t.policy, t.priority);
}

machine-Documented : Documented machine
machine-Documented = record {
  affinity_set = λ m t e. ground arith;
  affinity_only = λ m t. ground arith;
  affinity_fails = λ m t e. ground arith;
  scheduling_set = λ policy priority t e. ground arith;
  scheduling_only = λ policy priority t. ground arith;
  scheduling_fails = λ policy priority t e. ground arith;
}

abbrev thread : Attributes
thread = record { root = true; cpus = 0 ∷ 1 ∷ []; policy = 0; priority = pos 0 }

abbrev receive : RtConfig
receive = record (default_config k_rx) { cpu = pos 2 }

received :
    Linux.bind_and_prioritize machine receive thread
    ≡ (true, record thread { cpus = 2 ∷ []; policy = 1; priority = pos 60 })
unfolding Linux.bind_and_prioritize
received = refl

-- Without privileges the thread is moved all the same.
moved :
    Linux.bind_and_prioritize machine receive (record thread { root = false })
    ≡ (false, record thread { root = false; cpus = 2 ∷ [] })
unfolding Linux.bind_and_prioritize
moved = refl

linux-Outcome_example :
    Outcome machine machine-Documented
      (pos 2)
      receive
      thread
      (Linux.bind_and_prioritize machine receive thread)
linux-Outcome_example = linux-Outcome machine machine-Documented receive thread
