-- ===== src/Routing/PolicyBinding/Threads/Unordered.antt =====
-- What a worker can accept, of src/alpha/routing/policy_binding.cpp, where the accesses do not take
-- effect in the order of the program.
use alpha_smart_router.Base.{ℕ, ◌≡◌, ◌≢◌, ◌%◌, refl, ◌∙◌, ap, false, none, some, List, bit_and-one}
use alpha_smart_router.Routing.PathSelection.{CandidateRef, PacketContext}
use alpha_smart_router.Routing.PolicyBinding.{ChooseFn, Policy, thunk_of, Memory, call}
use alpha_smart_router.Routing.PolicyBinding.Threads.{
  Update, Writer, Reader, Shared, enter_held, store_first, load_seq, load_fn, load_state, accept,
  Reach, here, next,
}
use alpha_smart_router.Routing.PolicyBinding.Threads.Race.{call_confused}

module _ (class : ℕ → ChooseFn) (a c : ℕ) where
  -- The second object is being published, and the worker has accepted.
  abbrev accepted : ℕ → Shared
  accepted s0 = record {
    binding = record { seq = s0; fn = some (class a); state = some c };
    writer = Writer.one_stored (Update.publish c) s0;
    reader = Reader.accepted 0 (some (class a)) (some c) (Update.publish a);
    last = Update.publish a;
  }

  accepted-Reach : (s0 : ℕ) → s0 % 2 ≡ 0 → Reach class false s0 (Update.publish a) (accepted s0)
  accepted-Reach s0 even =
      next
        (next
          (next
            (next (next (next here (enter_held (Update.publish c) refl refl)) (store_first refl))
              (load_seq refl (bit_and-one s0 ∙ even)))
            (load_fn refl))
          (load_state refl))
        (accept refl refl even)

  -- Where the accesses of a thread need not take effect in the order of its program, as in the
  -- source: when a policy is published over one of another class, from any even sequence number, a
  -- worker can accept the function of the first with the object of the second, though no update
  -- finished between its two loads of the sequence number; its call is then undefined behaviour.
  pub unordered_confuses :
      (s0 : ℕ) (memory : Memory) (p q : Policy) (cands : List CandidateRef) (pkt : PacketContext)
      → s0 % 2 ≡ 0
      → class a ≡ thunk_of p
      → memory c ≡ some q
      → thunk_of p ≢ thunk_of q
      → (s : Shared) × Reach class false s0 (Update.publish a) s
        × (s.reader ≡ Reader.accepted 0 (some (thunk_of p)) (some c) (Update.publish a))
        × (call (some (thunk_of p)) (some c) memory cands pkt ≡ none)
  unordered_confuses s0 memory p q cands pkt even fits at_c differ = (
    accepted s0,
    accepted-Reach s0 even,
    ap (λ (f : ChooseFn). Reader.accepted 0 (some f) (some c) (Update.publish a)) fits,
    call_confused memory c p q cands pkt at_c differ,
  )
