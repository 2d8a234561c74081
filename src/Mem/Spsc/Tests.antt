-- ===== src/Mem/Spsc/Tests.antt =====
-- `SpscQueue` at a ring of four cells, and on two threads.
use alpha_smart_router.Base.{
  ℕ, zero, suc, ◌+◌, ◌*◌, ◌%◌, ◌≤◌, ◌⊎◌, ◌≡◌, ◌≢◌, refl, true, false, Option, none, some, List, [],
  ◌∷◌, ◌++◌, arith, length, get_elem?,
}
use alpha_smart_router.Mem.Fifo.{Call, put, get}
use alpha_smart_router.Mem.Fifo
use alpha_smart_router.Mem.Spsc.{SpscQueue, ElementTraits, empty, pop, move_from, store, load}
use alpha_smart_router.Mem.Spsc.Invariant.{Holds}
use alpha_smart_router.Mem.Spsc.Create.{moved_from_pop}
use alpha_smart_router.Mem.Spsc.Refine.{run, run_refines}
use alpha_smart_router.Mem.Spsc.Threads.{
  Producer, Consumer, Produce, Consume, System, produce, consume, Reach, here, next,
}
use alpha_smart_router.Mem.Spsc.Threads.Linear.{Reach-fifo, Reach-no_race}
use alpha_smart_router.Mem.Spsc.Threads.WaitFree.{CanProduce, CanConsume, Reach-wait_free}

abbrev zeroed : ℕ → ℕ
zeroed v = 0

-- Two elements, from the last cell round to the first.
abbrev ring : SpscQueue ℕ
ring = record {
  head = 3;
  tail = 1;
  buf = some 9 ∷ none ∷ some 0 ∷ some 8 ∷ [];
  capacity = 4;
  mask = 3;
}

abbrev vacant : SpscQueue ℕ
vacant = record { head = 0; tail = 0; buf = none ∷ none ∷ none ∷ none ∷ []; capacity = 4; mask = 3 }

ring-Holds : Holds ring (8 ∷ 9 ∷ [])
ring-Holds = record {
  frame = record {
    valid = record {
      log = 2;
      power = refl;
      small = omega arith;
      masked = refl;
      stored = refl;
      head_in = omega arith;
      tail_in = omega arith;
    };
    placed = refl;
    bounded = omega arith;
  };
  cells = there;
}
  where
    there :
        (i : ℕ) (v : ℕ)
        → get_elem? (8 ∷ 9 ∷ []) i ≡ some v
        → get_elem? ring.buf ((ring.head + i) % ring.capacity) ≡ some (some v)
    there zero v e = cc
    there (suc zero) v e = cc
    there (suc (suc i)) v e = cc

vacant-Holds : Holds vacant []
vacant-Holds = record {
  frame = record {
    valid = record {
      log = 2;
      power = refl;
      small = omega arith;
      masked = refl;
      stored = refl;
      head_in = omega arith;
      tail_in = omega arith;
    };
    placed = refl;
    bounded = omega arith;
  };
  cells = λ i v e. cc;
}

abbrev calls : List (Call ℕ)
calls = put 5 ∷ put 6 ∷ get ∷ put 7 ∷ get ∷ get ∷ get ∷ get ∷ []

run_refines_example : run zeroed ring calls ≡ some (Fifo.run 3 (8 ∷ 9 ∷ []) calls)
run_refines_example = run_refines zeroed ring (8 ∷ 9 ∷ []) calls ring-Holds

abbrev plain : ElementTraits
plain = record { trivially_copyable = true; nothrow_move_constructible = false; size = 4 }

moved_from_pop_example : (empty (move_from ring).1 ≡ false) × (pop zeroed (move_from ring).1 ≡ none)
moved_from_pop_example = moved_from_pop zeroed ring 8 (9 ∷ []) ring-Holds

-- One element sent, and the consumer about to give its cell back.
abbrev handing : System ℕ
handing = record {
  queue = record vacant { buf = some 0 ∷ none ∷ none ∷ none ∷ []; tail = 1 };
  producer = Producer.resting;
  consumer = Consumer.took 7 0;
  sent = 7 ∷ [];
  received = [];
}

sent_one : Reach zeroed vacant (record handing {
  queue = record vacant { buf = some 7 ∷ none ∷ none ∷ none ∷ []; tail = 1 };
  consumer = Consumer.resting;
})
sent_one =
    next
      (next
        (next (next here (produce (Produce.load_tail 7)))
          (produce (Produce.see_room (λ e. omega (arith, e)))))
        (produce (Produce.write refl)))
      (produce Produce.publish)

handing-Reach : Reach zeroed vacant handing
handing-Reach =
    next
      (next (next sent_one (consume Consume.load_head))
        (consume (Consume.see_element (λ e. omega (arith, e)))))
      (consume (Consume.take refl))

Reach-fifo_example : (rest : List ℕ) × (7 ∷ [] ≡ [] ++ rest) × (length rest ≤ 3)
Reach-fifo_example = Reach-fifo zeroed vacant vacant-Holds handing-Reach

-- Both threads at a cell: the producer at the second, the consumer at the first.
abbrev both : System ℕ
both = record handing {
  queue = record vacant { buf = some 7 ∷ none ∷ none ∷ none ∷ []; tail = 1 };
  producer = Producer.granted 8 1 2;
  consumer = Consumer.granted 0;
}

both-Reach : Reach zeroed vacant both
both-Reach =
    next
      (next
        (next (next sent_one (consume Consume.load_head))
          (consume (Consume.see_element (λ e. omega (arith, e)))))
        (produce (Produce.load_tail 8)))
      (produce (Produce.see_room (λ e. omega (arith, e))))

Reach-no_race_example :
    (◌≢◌ {A = ℕ} 1 0)
    × ((buf : List (Option ℕ)) × (store both.queue.buf 1 8 ≡ some buf))
    × ((x : ℕ) × (load both.queue.buf 0 ≡ some x))
Reach-no_race_example = Reach-no_race zeroed vacant vacant-Holds both-Reach 8 1 2 0 refl refl

Reach-wait_free_example :
    (6 ≤ 4 * 2)
    × (2 ≤ 4 * 1)
    × ((both.producer ≡ Producer.resting) ⊎ CanProduce zeroed both both.producer)
    × ((both.consumer ≡ Consumer.resting) ⊎ CanConsume zeroed both both.consumer)
unfolding both-Reach sent_one
Reach-wait_free_example = Reach-wait_free zeroed vacant-Holds both-Reach
