-- ===== src/Routing/PolicyBinding/Threads/WorkerCalls.antt =====
-- The call that a worker makes with the snapshot that it accepted while the writer was at work.
use alpha_smart_router.Base.{
  ℕ, ◌%◌, ◌^◌, ◌≤◌, ◌<◌, ◌≡◌, ◌∙◌, sym, ap, ap₂, true, Option, some, List, length, get_elem?, inl,
  inr,
}
use alpha_smart_router.Routing.PathSelection.{CandidateRef, PacketContext}
use alpha_smart_router.Routing.PolicyBinding.{ChooseFn, Policy, thunk_of, Memory, put, both, call}
use alpha_smart_router.Routing.PolicyBinding.Calls.{write_back, call_lem}
use alpha_smart_router.Routing.PolicyBinding.Bound.{select_static-Chooses}
use alpha_smart_router.Routing.PolicyBinding.Threads.{Update, Reader, Shared, Reach}
use alpha_smart_router.Routing.PolicyBinding.Threads.Snapshot.{Reach-snapshot}

-- At each address an object of the class that is published for it.
abbrev pub Lives : (ℕ → ChooseFn) → Memory → Type 0
Lives class memory = (a : ℕ) → (p : Policy) × (memory a ≡ some p) × (thunk_of p ≡ class a)

module _ (cands : List CandidateRef) (pkt : PacketContext) (some_cands : 0 < length cands)
    (small : length cands ≤ 2 ^ 31) (class : ℕ → ChooseFn) where
  abbrev Called : Option ChooseFn → Option ℕ → Memory → Type 0
  Called fn st memory =
      (k : ℕ) × (c : CandidateRef) × (memory' : Memory) × (get_elem? cands k ≡ some c)
      × (call fn st memory cands pkt ≡ some (c.id, memory'))

  call_live :
      (memory : Memory) (a : ℕ) → Lives class memory → Called (some (class a)) (some a) memory
  call_live memory a live =
      let (p, there, fits) = live a in
      let (k, c, p', candidate, out, kept) = select_static-Chooses cands pkt some_cands small p in
      (
        k,
        c,
        put memory a p',
        candidate,
        ap (λ (f : ChooseFn). call (some f) (some a) memory cands pkt) (sym fits)
            ∙ call_lem memory a p cands pkt there
            ∙ ap (write_back memory a) out,
      )

  -- While the accesses of each thread take effect in the order of its program, which the source does
  -- not enforce, objects of their classes live at the addresses that the one writer publishes, and
  -- there are one to 2^31 candidates: a worker that accepted a snapshot with two pointers that are not null,
  -- fewer than 2^31 updates having finished meanwhile, calls the `choose` of the object's own class,
  -- which chooses the id of a candidate.
  pub Reach-call :
      {s0 : ℕ} {u0 : Update} {s : Shared} (memory : Memory) (since : ℕ) (fn : Option ChooseFn)
      (st : Option ℕ) (latest : Update)
      → s0 % 2 ≡ 0
      → s0 < 2 ^ 32
      → Lives class memory
      → Reach class true s0 u0 s
      → s.reader ≡ Reader.accepted since fn st latest
      → since < 2 ^ 31
      → both fn st ≡ true
      → Called fn st memory
  Reach-call {s0} memory since fn st latest even below live r e few bound =
      elim ((Reach-snapshot class s0 even since fn st latest below r e few).2) [
        | inl (no_fn, no_state) ↦ absurd (cc (bound, ap₂ both no_fn no_state))
        | inr (policy, is_state, is_fn) ↦
            let (k, c, memory', candidate, out) = call_live memory policy live in
            (
              k,
              c,
              memory',
              candidate,
              ap₂ (λ (f : Option ChooseFn) (a : Option ℕ). call f a memory cands pkt) is_fn is_state
                  ∙ out,
            )
      ]
