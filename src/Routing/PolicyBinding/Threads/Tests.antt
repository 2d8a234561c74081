-- ===== src/Routing/PolicyBinding/Threads/Tests.antt =====
-- A worker that begins to read while a policy is being published, has to retry, and accepts.
use alpha_smart_router.Base.{
  ℕ, ◌≤◌, ◌≡◌, ◌⊎◌, refl, true, false, none, some, List, [], ◌∷◌, arith, get_elem?, if◌then◌else◌,
  ◌==◌,
}
use alpha_smart_router.Routing.PathSelection.{default_metrics, CandidateRef, PacketContext}
use alpha_smart_router.Routing.PolicyBinding.{
  ChooseFn, Policy, Memory, put, unbound, select_path, call,
}
use alpha_smart_router.Routing.PolicyBinding.Threads.{
  Update, Writer, Reader, Shared, Step, enter, store_first, store_second, leave, load_seq, load_fn,
  load_state, accept, retry, Reach, here, next,
}
use alpha_smart_router.Routing.PolicyBinding.Threads.Race.{raced, race_confuses}
use alpha_smart_router.Routing.PolicyBinding.Threads.Unordered.{unordered_confuses}
use alpha_smart_router.Routing.PolicyBinding.Threads.Attempts.{Returned, own, own_steps, wait_free}
use alpha_smart_router.Routing.PolicyBinding.Threads.WorkerCalls.{Lives, Reach-call}

abbrev class : ℕ → ChooseFn
class a = ChooseFn.flow_hash_thunk

abbrev memory : Memory
memory a = some (Policy.flow_hash true)

abbrev cands : List CandidateRef
cands = record { id = 20; slot = record { seq = 4; metrics = default_metrics } } ∷ []

abbrev packet : PacketContext
packet = record { flow_hash = 5; dscp = 46 }

-- The worker reads the null function and the new state; the writer ends before its second load.
abbrev published : Shared
published = record {
  binding = record { seq = 2; fn = some ChooseFn.flow_hash_thunk; state = some 3 };
  writer = Writer.idle;
  reader = Reader.read_state 3 0 1 none (some 3);
  last = Update.publish 3;
}

published-Reach : Reach class true 0 Update.clear published
published-Reach =
    next
      (next
        (next
          (next
            (next (next (next here (load_seq refl refl)) (load_fn refl))
              (enter (Update.publish 3) refl))
            (store_first refl))
          (load_state refl))
        (store_second refl))
      (leave refl)

abbrev done : Shared
done = record published {
  reader = Reader.accepted 0 (some ChooseFn.flow_hash_thunk) (some 3) (Update.publish 3);
}

done-Reach : Reach class true 0 Update.clear done
done-Reach =
    next
      (next
        (next
          (next (next published-Reach (retry refl (λ agree. absurd (omega (arith, agree.0)))))
            (load_seq refl refl))
          (load_fn refl))
        (load_state refl))
      (accept refl refl refl)

memory-Lives : Lives class memory
memory-Lives a = (Policy.flow_hash true, refl, refl)

Reach-call_example :
    (k : ℕ) × (c : CandidateRef) × (memory' : Memory) × (get_elem? cands k ≡ some c)
    × (call (some ChooseFn.flow_hash_thunk) (some 3) memory cands packet ≡ some (c.id, memory'))
Reach-call_example =
    Reach-call cands packet (omega arith) (omega arith) class memory 0
      (some ChooseFn.flow_hash_thunk) (some 3) (Update.publish 3) refl (omega arith) memory-Lives
      done-Reach refl (omega arith) refl

wait_free_example :
    (own_steps class done-Reach ≤ 17)
    × (Returned done.reader ⊎ ((t : Shared) × (st : Step class true done t) × (own class st ≡ 1)))
wait_free_example = wait_free class done-Reach

-- A round-robin policy at 3, and one by flow hash at 4.
abbrev two_classes : ℕ → ChooseFn
two_classes a = if a == 3 then ChooseFn.round_robin_thunk else ChooseFn.flow_hash_thunk

abbrev two_policies : Memory
two_policies = put (put (λ a. none) 3 (Policy.round_robin 7)) 4 (Policy.flow_hash true)

race_confuses_example :
    (select_path (raced two_classes unbound 3 4) two_policies cands packet
      ≡ call (some ChooseFn.round_robin_thunk) (some 4) two_policies cands packet)
    × (call (some ChooseFn.round_robin_thunk) (some 4) two_policies cands packet ≡ none)
race_confuses_example =
    race_confuses two_classes unbound two_policies 3 4 (Policy.round_robin 7)
      (Policy.flow_hash true) cands packet refl refl refl (λ e. cc)

unordered_confuses_example :
    (s : Shared) × Reach two_classes false 2 (Update.publish 3) s
    × (s.reader ≡ Reader.accepted 0 (some ChooseFn.round_robin_thunk) (some 4) (Update.publish 3))
    × (call (some ChooseFn.round_robin_thunk) (some 4) two_policies cands packet ≡ none)
unordered_confuses_example =
    unordered_confuses two_classes 3 4 2 two_policies (Policy.round_robin 7) (Policy.flow_hash true)
      cands packet refl refl refl (λ e. cc)
