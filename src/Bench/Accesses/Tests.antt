-- ===== src/Bench/Accesses/Tests.antt =====
-- The accesses of `run_one` at two elements, through a ring of two cells.
use alpha_smart_router.Base.{
  ℕ, zero, suc, ◌+◌, ◌^◌, ◌≤◌, ◌≡◌, refl, true, Option, none, some, List, [], ◌∷◌, arith,
}
use alpha_smart_router.Mem.Spsc.{ElementTraits, traits_ok, with_capacity}
use alpha_smart_router.Mem.Spsc.Invariant.{Holds}
use alpha_smart_router.Mem.Spsc.Threads.{Producer, Consumer}
use alpha_smart_router.Bench.{Thread, prod, cons, int_payload}
use alpha_smart_router.Bench.Accesses.{
  Run, Outcome, left, aborted, access, accesses, produce_access, consume_access, run_one,
}
use alpha_smart_router.Bench.Accesses.Rounds.{Fair, unordered, round, tally}
use alpha_smart_router.Bench.Accesses.Finish.{run_one_ends}

abbrev plain : ElementTraits
plain = record { trivially_copyable = true; nothrow_move_constructible = true; size = 4 }

-- The threads take turns at each access; the consumer starts.
abbrev turns : List Thread
turns = cons ∷ prod ∷ cons ∷ prod ∷ cons ∷ prod ∷ cons ∷ prod ∷ []

turns-often : (u : Thread) → 4 ≤ tally turns u
turns-often prod = omega arith
turns-often cons = omega arith

abbrev schedule : (rounds : ℕ) → List Thread
schedule zero = []
schedule (suc rounds) = cons ∷ prod ∷ cons ∷ prod ∷ cons ∷ prod ∷ cons ∷ prod ∷ schedule rounds

schedule-Fair : (rounds : ℕ) → Fair rounds (schedule rounds)
schedule-Fair zero = unordered []
schedule-Fair (suc rounds) = round turns (schedule rounds) turns-often (schedule-Fair rounds)

abbrev totals {ℓ} : {A : Type ℓ} → Option (Outcome A) → Option (ℕ × ℕ × A)
totals none = none
totals (some aborted) = none
totals (some (left s)) = some (s.i, s.consumed, s.out)

ints : totals (run_one int_payload plain true 2 2 (schedule 4)) ≡ some (2, 2, 1)
unfolding run_one accesses access produce_access consume_access with_capacity traits_ok
ints = refl

-- One thread alone fills the ring, and looks again and again.
alone :
    totals (run_one int_payload plain true 2 2 (prod ∷ prod ∷ prod ∷ prod ∷ prod ∷ prod ∷ []))
    ≡ some (1, 0, 0)
unfolding run_one accesses access produce_access consume_access with_capacity traits_ok
alone = refl

run_one_ends_example :
    (s : Run ℕ) × (run_one int_payload plain true (2 ^ 1) 2 (schedule (2 + 2)) ≡ some (left s))
    × (s.i ≡ 2)
    × (s.consumed ≡ 2)
    × (s.producer ≡ Producer.resting)
    × (s.consumer ≡ Consumer.resting)
    × Holds s.queue []
    × ((c : ℕ) → 2 ≡ suc c → s.out ≡ int_payload.used (int_payload.make c))
run_one_ends_example =
    run_one_ends int_payload plain 1 2 (schedule (2 + 2)) refl (omega arith) (omega arith)
      (omega arith) (omega arith) (omega arith) (schedule-Fair (2 + 2))
