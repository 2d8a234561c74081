-- ===== src/Bench/Tests.antt =====
-- `run_one` at two and three elements, through a ring of two cells.
use alpha_smart_router.Base.{
  false, ℕ, text, ◌*◌, zero, suc, ◌≡◌, refl, true, Option, none, some, List, [], ◌∷◌,
}
use alpha_smart_router.Routing.Doubles.Milli.{milli}
use alpha_smart_router.Bench.Report.{Result, report}
use mathlib.Core.List.{Memᴰ}
use alpha_smart_router.Mem.Spsc.{ElementTraits, with_capacity, push, push_move, pop}
use alpha_smart_router.Bench.{
  Thread, prod, cons, Outcome, left, aborted, int_payload, pointer_payload, enqueue, produce,
  consume, turn, turns, run_one,
}
use alpha_smart_router.Bench.Finish.{Fair, unordered, round}

abbrev plain : ElementTraits
plain = record { trivially_copyable = true; nothrow_move_constructible = true; size = 4 }

-- The consumer first, then the producer twice: the second of its calls may find the ring full.
abbrev schedule : (rounds : ℕ) → List Thread
schedule zero = []
schedule (suc rounds) = cons ∷ prod ∷ prod ∷ schedule rounds

schedule-Fair : (rounds : ℕ) → Fair rounds (schedule rounds)
schedule-Fair zero = unordered []
schedule-Fair (suc rounds) =
    round (cons ∷ prod ∷ prod ∷ []) (schedule rounds) (Memᴰ.tail (Memᴰ.head refl)) (Memᴰ.head refl)
      (schedule-Fair rounds)

abbrev totals {ℓ} : {A : Type ℓ} → Option (Outcome A) → Option (ℕ × ℕ × A)
totals none = none
totals (some aborted) = none
totals (some (left s)) = some (s.i, s.consumed, s.out)

ints : totals (run_one int_payload plain true 2 3 (schedule 6)) ≡ some (3, 3, 2)
unfolding run_one turns turn produce consume enqueue with_capacity push push_move pop
ints = refl

-- `std::unique_ptr<int>`: its first assignment is to raw storage.
abbrev owning : ElementTraits
owning = record { trivially_copyable = false; nothrow_move_constructible = true; size = 8 }

pointers : run_one pointer_payload owning true 2 3 (schedule 6) ≡ none
unfolding run_one turns turn produce consume enqueue with_capacity push push_move pop
pointers = refl

no_ring : run_one int_payload plain true 3 3 [] ≡ some aborted
unfolding run_one turns turn produce consume enqueue with_capacity push push_move pop
no_ring = refl

-- A million elements in a quarter of a second: four million a second, and 250 nanoseconds each.
abbrev fast : Result milli
fast = report milli (text "int@256") 1000000 250000000

rates :
    (fast.seconds ≡ 250)
    × (fast.items_per_s ≡ 4000000 * 1000)
    × (fast.ops_per_s ≡ 8000000 * 1000)
    × (fast.ns_per_pair ≡ 250 * 1000)
unfolding report
rates = (refl, refl, refl, refl)
