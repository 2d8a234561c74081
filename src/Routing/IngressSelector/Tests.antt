-- ===== src/Routing/IngressSelector/Tests.antt =====
-- The ingress selector with three points of presence.
use alpha_smart_router.Routing.BgpOracle.{SimRoute, SimRouteMap, default_route, serving_pop}
use alpha_smart_router.Routing.BgpOracle.Best.{IsBest}
use alpha_smart_router.Routing.Validation.{InetPton, ids_of}
use alpha_smart_router.Routing.IngressSelector.Informed.{informed_lem}
use alpha_smart_router.Base.{
  ℕ, ◌%◌, ◌<◌, ◌≡◌, refl, none, some, List, [], ◌∷◌, Text, text, arith, get_elem?, find, text_key,
  text_eq, text_lt, ◌⊎◌,
}
use alpha_smart_router.Routing.Pop.{Pop, PopList, default_pop}
use alpha_smart_router.Routing.Validation.Unique.{FieldsValid}
use alpha_smart_router.Routing.Registry.{create, current, get_pops_copy}
use alpha_smart_router.Routing.Registry.Calls.{Call, adding, run}
use alpha_smart_router.Routing.Registry.Invariant.{registry-IsValid}
use alpha_smart_router.Routing.IngressSelector.Registered.{registered_lem}
use alpha_smart_router.Routing.IngressSelector.{
  IngressSelector, default_config, choose_ingress, choose_ingress_for, choose_policy_deterministic,
  load_pops, route_informed, mix, hash_source_ip,
}
use alpha_smart_router.Routing.IngressSelector.Turns.{Turns, answers, Turns-fair}
use alpha_smart_router.Routing.IngressSelector.Hashes.{hashes_pinned}

abbrev pops : PopList
pops =
    default_pop (text "a") (text "eu") (text "10.0.0.1")
    ∷ default_pop (text "b") (text "us") (text "10.0.0.2")
    ∷ default_pop (text "c") (text "ap") (text "10.0.0.3")
    ∷ []

abbrev ids : List Text
ids = text "a" ∷ text "b" ∷ text "c" ∷ []

abbrev turning : IngressSelector
turning = record { cfg = default_config; pops = pops; oracle = none; rr = 7 }

abbrev hashing : IngressSelector
hashing = record turning { cfg = record default_config { strategy = hash_source_ip } }

turning-Turns : Turns turning ids
turning-Turns = record {
  deterministic = refl;
  by_turns = refl;
  listed = refl;
  present = omega arith;
}

Turns-fair_example :
    (i : ℕ) × (i < 3) × (get_elem? (answers 3 turning (text "web")) i ≡ some (some (text "a")))
Turns-fair_example =
    Turns-fair turning ids (text "web") 0 (text "a") turning-Turns (omega arith) refl

hashes_pinned_example :
    (id : Text) × (get_elem? ids (mix 0 hashing.cfg.seed % 3) ≡ some id)
    × ((service client : Text)
        → (choose_ingress hashing service ≡ (some id, hashing))
          × (choose_ingress_for hashing service client ≡ (some id, hashing)))
hashes_pinned_example = hashes_pinned hashing refl (λ e. cc) (omega arith)

-- Two routes for `web`, the second with the shorter path.
abbrev near : SimRoute
near = default_route (text "a")

abbrev routes : SimRouteMap
routes = (text "web", near ∷ record near { pop_id = text "d"; as_path_len = 1 } ∷ []) ∷ []

abbrev asking : IngressSelector
asking = record turning {
  cfg = record default_config { mode = route_informed };
  oracle = some (serving_pop routes);
}

-- The answer need not be one of the points of presence that are loaded.
asked : choose_ingress_for asking (text "web") (text "10.1.1.1") ≡ (some (text "d"), asking)
unfolding choose_ingress_for serving_pop find text_eq text_lt
asked = refl

informed_lem_example :
    (((find (text "web") routes ≡ none) ⊎ (find (text "web") routes ≡ some []))
      × (choose_ingress_for asking (text "web") []
          ≡ choose_policy_deterministic asking (ids_of pops) 0))
    ⊎ ((rs : List SimRoute) × (b : SimRoute) × (find (text "web") routes ≡ some rs)
        × IsBest b rs
        × (choose_ingress_for asking (text "web") [] ≡ (some b.pop_id, asking)))
informed_lem_example = informed_lem asking routes refl refl (text "web") []

abbrev inet : InetPton
inet family t = text_eq t (text "10.0.0.1")

abbrev registered : List Call
registered =
    adding (text "web") (default_pop (text "pop-a") (text "eu") (text "10.0.0.1") ∷ []) ∷ []

registered_lem_example :
    let r = (run inet create registered).1 in
    let s = load_pops hashing (get_pops_copy r (text "web")) in
    ((find (text "web") (current r) ≡ none)
      × ((choose_ingress s (text "web")).0 ≡ some [])
      × ((choose_ingress_for s (text "web") (text "192.0.2.7")).0 ≡ some []))
    ⊎ ((pops : PopList) × (i : ℕ) × (p : Pop) × (find (text "web") (current r) ≡ some pops)
        × (get_elem? pops i ≡ some p)
        × FieldsValid inet p
        × ((choose_ingress s (text "web")).0 ≡ some p.id)
        × ((choose_ingress_for s (text "web") (text "192.0.2.7")).0 ≡ some p.id))
registered_lem_example =
    registered_lem inet (run inet create registered).1 (registry-IsValid inet registered) hashing
      (text "web") refl (text "192.0.2.7")
