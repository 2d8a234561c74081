-- ===== src/Routing/IngressSelector/Registered.antt =====
-- The ingress selector on the points of presence that a `ServiceRegistry` gives
-- (src/alpha/routing/ingress_selector.cpp, src/alpha/routing/service_registry.cpp).
use alpha_smart_router.Base.{
  ℕ, zero, suc, ◌%◌, ◌<◌, ◌≡◌, ◌⊎◌, inl, inr, refl, ◌∙◌, subst, ap, true, Option, none, some, List,
  [], ◌∷◌, Text, arith, length, get_elem?, lt-get_elem?, find, text_key, Option-cases,
  text_eq_cases, length-map,
}
use native.Mathlib.Nat.{mod-lt}
use alpha_smart_router.Routing.Pop.{Pop, PopList}
use alpha_smart_router.Routing.Validation.{InetPton, ids_of, validate_pops}
use alpha_smart_router.Routing.Validation.Unique.{FieldsValid, AllFieldsValid, validate_pops_iff}
use alpha_smart_router.Routing.Registry.{Map, ServiceRegistry, current, get_pops_copy}
use alpha_smart_router.Routing.Registry.Directory.{pops_of}
use alpha_smart_router.Routing.Registry.ValidMap.{EntriesValid}
use alpha_smart_router.Routing.Registry.Invariant.{IsValid}
use alpha_smart_router.Routing.Registry.Readers.{readers_there}
use alpha_smart_router.Routing.IngressSelector.{
  IngressSelector, IngressStrategy, by_strategy, choose_policy_deterministic, choose_ingress,
  choose_ingress_for, load_pops, mix, policy_deterministic, round_robin, hash_source_ip,
  hash_5_tuple,
}
use alpha_smart_router.Routing.IngressSelector.Turns.{asks_none}

-- A strategy picks a place of a list of ids that is not empty.
place :
    (s : IngressSelector) (ids : List Text)
    → 0 < length ids
    → (i : ℕ) × (i < length ids) × ((choose_policy_deterministic s ids 0).0 ≡ get_elem? ids i)
unfolding choose_policy_deterministic by_strategy
place s [] present = absurd (omega arith)
place s (id ∷ ids) present = by s.cfg.strategy
  where
    by :
        (strategy : IngressStrategy)
        → (i : ℕ) × (i < length (id ∷ ids))
          × ((by_strategy s strategy (id ∷ ids) 0).0 ≡ get_elem? (id ∷ ids) i)
    by round_robin = (s.rr % length (id ∷ ids), mod-lt _ present, refl)
    by hash_source_ip = (mix 0 s.cfg.seed % length (id ∷ ids), mod-lt _ present, refl)
    by hash_5_tuple = (mix 0 s.cfg.seed % length (id ∷ ids), mod-lt _ present, refl)

id_at :
    (pops : PopList) (i : ℕ) {p : Pop}
    → get_elem? pops i ≡ some p
    → get_elem? (ids_of pops) i ≡ some p.id
id_at [] i e = cc
id_at (q ∷ pops) zero e = cc
id_at (q ∷ pops) (suc i) e = id_at pops i e

module _ (inet_pton : InetPton) where
  fields_at :
      (pops : PopList) (i : ℕ) {p : Pop}
      → AllFieldsValid inet_pton pops
      → get_elem? pops i ≡ some p
      → FieldsValid inet_pton p
  fields_at [] i v e = cc
  fields_at (q ∷ pops) zero {p} v e =
      let same : q ≡ p = cc in subst (FieldsValid inet_pton) same v.0
  fields_at (q ∷ pops) (suc i) v e = fields_at pops i v.1 e

  entry-valid :
      (k : Text) (m : Map) {pops : PopList}
      → EntriesValid inet_pton m
      → find k m ≡ some pops
      → validate_pops inet_pton pops ≡ true
  unfolding find
  entry-valid k [] v e = cc
  entry-valid k ((j, x) ∷ m) {pops} v e = elim (text_eq_cases j k) [
    | inl (equal, _) ↦
        let same : x ≡ pops = cc (rw (equal, find) at e) in
        subst (λ l. validate_pops inet_pton l ≡ true) same v.1
    | inr (unequal, _) ↦ entry-valid k m v.2 (rw (unequal, find) at e)
  ]

  module _ (r : ServiceRegistry) (valid : IsValid inet_pton r) (s : IngressSelector) (k : Text)
      (local : s.cfg.mode ≡ policy_deterministic) where
    -- The selector with what the registry has for the service.
    abbrev pub stocked : IngressSelector
    stocked = load_pops s (get_pops_copy r k)

    copied : get_pops_copy r k ≡ pops_of (find k (current r))
    copied = ((readers_there r r.published valid.points refl).2 k).1

    both_local :
        (client : Text)
        → (choose_ingress stocked k ≡ choose_policy_deterministic stocked (ids_of stocked.pops) 0)
          × (choose_ingress_for stocked k client
              ≡ choose_policy_deterministic stocked (ids_of stocked.pops) 0)
    unfolding choose_ingress choose_ingress_for
    both_local client = (
      rw (asks_none stocked s.cfg.mode k [] local, choose_ingress) refl,
      rw
          (
            asks_none stocked s.cfg.mode k client local,
            asks_none stocked s.cfg.mode k [] local,
            choose_ingress_for,
            choose_ingress,
          )
          refl,
    )

    -- The answers of both overloads of `chooseIngress`.
    abbrev Answers : (client id : Text) → Type 0
    Answers client id =
        ((choose_ingress stocked k).0 ≡ some id)
        × ((choose_ingress_for stocked k client).0 ≡ some id)

    answers :
        (client id : Text)
        → (choose_policy_deterministic stocked (ids_of stocked.pops) 0).0 ≡ some id
        → Answers client id
    answers client id e =
        let (plain, with_client) = both_local client in
        let first = λ (x : Option Text × IngressSelector). x.0 in
        (ap first plain ∙ e, ap first with_client ∙ e)

    copies : {o : Option PopList} → find k (current r) ≡ o → stocked.pops ≡ pops_of o
    copies e = copied ∙ ap pops_of e

    -- From a registry that satisfies its invariant, in the mode that asks no oracle, with any
    -- strategy and whatever the counter and the client: on the points of presence that
    -- `getPopsCopy` gives for a service, both overloads of `chooseIngress` answer the id of one of
    -- those that the registry has for the service, whose fields are valid; and they answer the
    -- empty text if the registry has no such service.
    pub registered_lem :
        (client : Text)
        → ((find k (current r) ≡ none)
            × ((choose_ingress stocked k).0 ≡ some [])
            × ((choose_ingress_for stocked k client).0 ≡ some []))
          ⊎ ((pops : PopList) × (i : ℕ) × (p : Pop) × (find k (current r) ≡ some pops)
              × (get_elem? pops i ≡ some p)
              × FieldsValid inet_pton p
              × ((choose_ingress stocked k).0 ≡ some p.id)
              × ((choose_ingress_for stocked k client).0 ≡ some p.id))
    unfolding choose_policy_deterministic
    registered_lem client = elim (Option-cases (find k (current r))) [
      | inl absent ↦
          let (plain, with_client) =
            answers client []
              (ap (λ l. (choose_policy_deterministic stocked (ids_of l) 0).0) (copies absent)) in
          inl (absent, plain, with_client)
      | inr (pops, there) ↦
          let (present, _, fields, _) =
            (validate_pops_iff inet_pton pops).0
              (entry-valid k (current r) valid.valid.entries there) in
          let (i, within, placed) =
            place stocked (ids_of pops) (omega (arith, length-map (λ (p : Pop). p.id) pops)) in
          let (p, at) = lt-get_elem? pops i (omega (arith, length-map (λ (p : Pop). p.id) pops)) in
          let (plain, with_client) = answers client p.id (
            ap (λ l. (choose_policy_deterministic stocked (ids_of l) 0).0) (copies there)
            ∙ placed
            ∙ id_at pops i at) in
          inr (pops, i, p, there, at, fields_at pops i fields at, plain, with_client)
    ]
