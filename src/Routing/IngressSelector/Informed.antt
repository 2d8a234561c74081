-- ===== src/Routing/IngressSelector/Informed.antt =====
-- The ingress selector that asks the simulated oracle.
use alpha_smart_router.Base.{
  ◌≡◌, ◌⊎◌, inl, inr, refl, ap₂, Option, none, some, List, [], Text, find, text_key,
}
use alpha_smart_router.Routing.BgpOracle.{BgpOracle, SimRoute, SimRouteMap, serving_pop}
use alpha_smart_router.Routing.BgpOracle.Best.{IsBest, serving_pop_lem}
use alpha_smart_router.Routing.Validation.{ids_of}
use alpha_smart_router.Routing.IngressSelector.{
  IngressSelector, IngressMode, route_informed, ask, choose_policy_deterministic, choose_ingress,
  choose_ingress_for,
}

module _ (s : IngressSelector) (routes : SimRouteMap) (informed : s.cfg.mode ≡ route_informed)
    (attached : s.oracle ≡ some (serving_pop routes)) where
  asks :
      (service client : Text)
      → ask s.cfg.mode s.oracle service client ≡ serving_pop routes service client
  unfolding ask
  asks service client =
      ap₂ (λ (m : IngressMode) (o : Option BgpOracle). ask m o service client) informed attached

  any_client :
      (service client : Text) → serving_pop routes service [] ≡ serving_pop routes service client
  unfolding serving_pop
  any_client service client = refl

  -- In the mode that asks an oracle, with the simulated one attached, and whatever the client and
  -- the points of presence that are loaded: the answer is the PoP of a best route of the service, of
  -- the highest local preference, then the shortest AS path, the lowest MED, the lowest IGP cost and
  -- the first name, and the selector stays as it is; or the table has no route for the service, and the answer is
  -- that of the strategy.
  pub informed_lem :
      (service client : Text)
      → (((find service routes ≡ none) ⊎ (find service routes ≡ some []))
          × (choose_ingress_for s service client ≡ choose_policy_deterministic s (ids_of s.pops) 0))
        ⊎ ((rs : List SimRoute) × (b : SimRoute) × (find service routes ≡ some rs)
            × IsBest b rs
            × (choose_ingress_for s service client ≡ (some b.pop_id, s)))
  unfolding choose_ingress_for choose_ingress
  informed_lem service client = elim (serving_pop_lem routes service client) [
    | inl (unserved, no_routes) ↦ inl (
      no_routes,
      rw (asks service client, unserved, choose_ingress_for)
          (rw (asks service [], any_client service client, unserved, choose_ingress) refl),
    )
    | inr (rs, b, there, best, serves) ↦
        inr (rs, b, there, best, rw (asks service client, serves, choose_ingress_for) refl)
  ]
