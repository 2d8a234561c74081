-- ===== src/Bench/Accesses/Ranks.antt =====
-- How near the threads of `run_one` are to the ends of their calls.
use alpha_smart_router.Base.{ℕ, suc, ◌+◌, ◌%◌, ◌≤◌, ◌<◌, ◌≡◌, ◌⊎◌, ◌∙◌, Option, some, arith}
use native.Mathlib.Nat.{mod-eq_of_lt}
use alpha_smart_router.Mem.Spsc.{size_mod}
use alpha_smart_router.Mem.Spsc.Threads.{Producer, Consumer}
use alpha_smart_router.Bench.{Thread, prod, cons, Payload}
use alpha_smart_router.Bench.Accesses.{Run}
use alpha_smart_router.Bench.Accesses.Sound.{IsSound}

module _ {ℓ} {A : Type ℓ} where
  -- How many accesses a call that succeeds has left, with all of one to come for a thread at rest.
  abbrev pub push_rank : Producer A → ℕ
  push_rank Producer.resting = 4
  push_rank (Producer.loaded v t m) = 3
  push_rank (Producer.granted v t m) = 2
  push_rank (Producer.wrote v m) = 1

  abbrev pub pop_rank : Consumer A → ℕ
  pop_rank Consumer.resting = 4
  pop_rank (Consumer.loaded h) = 3
  pop_rank (Consumer.granted h) = 2
  pop_rank (Consumer.took v h) = 1

  abbrev pub rank : Run A → Thread → ℕ
  rank s prod = push_rank s.producer
  rank s cons = pop_rank s.consumer

  abbrev pub progress : Run A → ℕ
  progress s = s.i + s.consumed

  pub rank_pos : (s : Run A) (t : Thread) → (1 ≤ rank s t) × (rank s t ≤ 4)
  rank_pos s prod = of s.producer
    where
      of : (pr : Producer A) → (1 ≤ push_rank pr) × (push_rank pr ≤ 4)
      of Producer.resting = (omega arith, omega arith)
      of (Producer.loaded v t m) = (omega arith, omega arith)
      of (Producer.granted v t m) = (omega arith, omega arith)
      of (Producer.wrote v m) = (omega arith, omega arith)
  rank_pos s cons = of s.consumer
    where
      of : (c : Consumer A) → (1 ≤ pop_rank c) × (pop_rank c ≤ 4)
      of Consumer.resting = (omega arith, omega arith)
      of (Consumer.loaded h) = (omega arith, omega arith)
      of (Consumer.granted h) = (omega arith, omega arith)
      of (Consumer.took v h) = (omega arith, omega arith)

-- 1 if the threads are the same.
abbrev pub same : Thread → Thread → ℕ
same prod prod = 1
same cons cons = 1
same t u = 0

module _ {ℓ} {A : Type ℓ} (p : Payload A) (cap n : ℕ) where
  -- The next call of the thread would succeed.
  abbrev pub Ready : Run A → Thread → Type 0
  Ready s prod = (s.i < n) × (suc s.i < s.consumed + cap)
  Ready s cons = s.consumed < s.i

  -- From one run to a later one: a call has succeeded; or none has, and a thread that could succeed
  -- has come nearer to it by `steps`.
  abbrev pub Nearer : (steps : Thread → ℕ) → Run A → Run A → Type 0
  Nearer steps s s' =
      (progress s < progress s')
      ⊎ ((s'.i ≡ s.i)
          × (s'.consumed ≡ s.consumed)
          × ((t : Thread) → Ready s t → rank s' t + steps t ≤ rank s t))

  -- What one or more accesses make of a run.
  pub record Moved (steps : Thread → ℕ) (s : Run A) (r : Option (Run A)) : Type ℓ where
    pub after : Run A
    pub defined : r ≡ some after
    pub sound : IsSound p cap n after
    pub nearer : Nearer steps s after

pub wraps : (n k : ℕ) → n < size_mod → k < n → (k + 1) % size_mod ≡ suc k
wraps n k small lt = mod-eq_of_lt (omega arith) ∙ omega arith
