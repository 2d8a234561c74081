-- ===== src/Routing/PolicyBinding/Bound.antt =====
-- A binding to a live object of its own class, and the calls through it.
use alpha_smart_router.Base.{
  ℕ, ◌%◌, ◌^◌, ◌≤◌, ◌<◌, ◌≡◌, refl, ◌∙◌, sym, ap, true, false, Option, some, List, arith, ◌==◌,
  length, get_elem?,
}
use alpha_smart_router.Routing.PathSelection.{CandidateRef, PacketContext}
use alpha_smart_router.Routing.PathSelection.Cyclic.{Chosen, round_robin_lem, flow_hash_lem}
use alpha_smart_router.Routing.PathSelection.Latency.{latency_lem}
use alpha_smart_router.Routing.PathSelection.LatencyAwarePolicy
use alpha_smart_router.Routing.PathSelection.RoundRobinPolicy
use alpha_smart_router.Routing.PolicyBinding.{
  Policy, thunk_of, outcome, select_static, Memory, put, PolicyBinding, publish_policy, select_path,
}
use alpha_smart_router.Routing.PolicyBinding.Calls.{
  write_back, call_lem, published_even, select-stable,
}

pub record Bound (b : PolicyBinding) (memory : Memory) : Type 0 where
  pub address : ℕ
  pub object : Policy
  pub lives : memory address ≡ some object
  pub stable : (b.seq % 2 == 0) ≡ true
  pub fn_fits : b.fn ≡ some (thunk_of object)
  pub state_fits : b.state ≡ some address

pub publish-Bound :
    (b : PolicyBinding) (memory : Memory) (a : ℕ) (p : Policy)
    → memory a ≡ some p
    → Bound (publish_policy b (thunk_of p) a) memory
unfolding publish_policy
publish-Bound b memory a p there = record {
  address = a;
  object = p;
  lives = there;
  stable = published_even b.seq;
  fn_fits = refl;
  state_fits = refl;
}

module _ (cands : List CandidateRef) (pkt : PacketContext) (some_cands : 0 < length cands)
    (small : length cands ≤ 2 ^ 31) where
  Chosen-candidate :
      (start : ℕ) (c : CandidateRef) → Chosen cands start c → (k : ℕ) × (get_elem? cands k ≡ some c)
  Chosen-candidate start c (Chosen.first_healthy i lt there well before) = (_, there)
  Chosen-candidate start c (Chosen.degraded there before) = (_, there)

  -- The object's own `choose` chooses a candidate, and leaves the object of its class.
  abbrev pub Chooses : Policy → Type 0
  Chooses p =
      (k : ℕ) × (c : CandidateRef) × (p' : Policy) × (get_elem? cands k ≡ some c)
      × (select_static p cands pkt ≡ some (c.id, p'))
      × (thunk_of p' ≡ thunk_of p)

  pub select_static-Chooses : (p : Policy) → Chooses p
  unfolding select_static
  select_static-Chooses (Policy.round_robin idx) =
      let (stepped, (c, out, chosen)) = round_robin_lem cands some_cands small idx pkt in
      let (k, there) = Chosen-candidate _ c chosen in
      let p' : Policy = Policy.round_robin (RoundRobinPolicy.choose idx cands pkt).1 in
      (k, c, p', there, ap (λ (o : Option ℕ). outcome o p') out, refl)
  select_static-Chooses (Policy.flow_hash true) =
      let (c, out, chosen) = flow_hash_lem cands some_cands small true pkt in
      let (k, there) = Chosen-candidate _ c chosen in
      (
        k,
        c,
        Policy.flow_hash true,
        there,
        ap (λ (o : Option ℕ). outcome o (Policy.flow_hash true)) out,
        refl,
      )
  select_static-Chooses (Policy.flow_hash false) =
      let (c, out, there) = flow_hash_lem cands some_cands small false pkt in
      (
        _,
        c,
        Policy.flow_hash false,
        there,
        ap (λ (o : Option ℕ). outcome o (Policy.flow_hash false)) out,
        refl,
      )
  select_static-Chooses (Policy.latency_aware cfg salt) =
      let (k, c, there, out, well) = latency_lem cfg salt cands pkt some_cands small in
      let p' : Policy = Policy.latency_aware cfg (LatencyAwarePolicy.choose cfg salt cands pkt).1 in
      (k, c, p', there, ap (λ (o : Option ℕ). outcome o p') out, refl)

  bound :
      (b : PolicyBinding) (memory : Memory) (live : Bound b memory)
      → select_path b memory cands pkt
        ≡ write_back memory live.address (select_static live.object cands pkt)
  bound b memory live =
      select-stable b memory cands pkt live.stable
      ∙ rw (live.fn_fits, live.state_fits)
          (call_lem memory live.address live.object cands pkt live.lives)

  -- Of one to 2^31 candidates, a call through a binding to a live object of its own class chooses
  -- the id of one of them, and leaves the binding bound to a live object of its class.
  pub Bound-choice :
      (b : PolicyBinding) (memory : Memory)
      → Bound b memory
      → (k : ℕ) × (c : CandidateRef) × (memory' : Memory) × (get_elem? cands k ≡ some c)
        × (select_path b memory cands pkt ≡ some (c.id, memory'))
        × Bound b memory'
  Bound-choice b memory live =
      let (k, c, p', there, out, kept) = select_static-Chooses live.object in
      (
        k,
        c,
        put memory live.address p',
        there,
        bound b memory live ∙ ap (write_back memory live.address) out,
        record {
          address = live.address;
          object = p';
          lives = ground arith;
          stable = live.stable;
          fn_fits = live.fn_fits ∙ ap some (sym kept);
          state_fits = live.state_fits;
        },
      )
