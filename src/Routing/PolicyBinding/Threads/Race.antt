-- ===== src/Routing/PolicyBinding/Threads/Race.antt =====
-- Two writers of one binding at once: the accesses of two calls of `cp::publish_policy`.
use alpha_smart_router.Base.{ℕ, ◌≡◌, ◌≢◌, refl, ◌∙◌, ap, none, some, List, arith}
use alpha_smart_router.Routing.PathSelection.{CandidateRef, PacketContext}
use alpha_smart_router.Routing.PolicyBinding.{
  ChooseFn, Policy, thunk_of, choose_thunk, Memory, PolicyBinding, call, select_path,
}
use alpha_smart_router.Routing.PolicyBinding.Calls.{published_even, select-stable}
use alpha_smart_router.Routing.PolicyBinding.Threads.{publish, mark, unmark, store_one, store_other}

-- The first writer publishes the object at `a` but for its last store; the second marks the binding
-- and stores its first pointer, to the object at `c`; then the first makes its last store.
abbrev pub raced : (ℕ → ChooseFn) → PolicyBinding → (a c : ℕ) → PolicyBinding
raced class b a c =
    let stored = store_other class (publish a) (store_one class (publish a) (mark b)) in
    unmark b.seq (store_one class (publish c) (mark stored))

choose_thunk-none :
    (p q : Policy) (cands : List CandidateRef) (pkt : PacketContext)
    → thunk_of p ≢ thunk_of q
    → choose_thunk (thunk_of p) q cands pkt ≡ none
unfolding choose_thunk
choose_thunk-none p q cands pkt differ = ground arith

-- A call of the `choose` of one class on an object of another.
pub call_confused :
    (memory : Memory) (c : ℕ) (p q : Policy) (cands : List CandidateRef) (pkt : PacketContext)
    → memory c ≡ some q
    → thunk_of p ≢ thunk_of q
    → call (some (thunk_of p)) (some c) memory cands pkt ≡ none
unfolding call
call_confused memory c p q cands pkt at_c differ =
    rw (at_c, call) (rw (choose_thunk-none p q cands pkt differ) refl)

-- The sequence number of a binding serves one writer only. When two publish objects of different
-- classes, there is an order of their accesses, from any binding, after which a call through it is
-- undefined behaviour: it runs the `choose` of one class on the object of the other.
pub race_confuses :
    (class : ℕ → ChooseFn) (b : PolicyBinding) (memory : Memory) (a c : ℕ) (p q : Policy)
    (cands : List CandidateRef) (pkt : PacketContext)
    → memory a ≡ some p
    → class a ≡ thunk_of p
    → memory c ≡ some q
    → thunk_of p ≢ thunk_of q
    → (select_path (raced class b a c) memory cands pkt
        ≡ call (some (thunk_of p)) (some c) memory cands pkt)
      × (call (some (thunk_of p)) (some c) memory cands pkt ≡ none)
race_confuses class b memory a c p q cands pkt at_a fits at_c differ = (
  select-stable (raced class b a c) memory cands pkt (published_even b.seq)
      ∙ ap (λ (f : ChooseFn). call (some f) (some c) memory cands pkt) fits,
  call_confused memory c p q cands pkt at_c differ,
)
