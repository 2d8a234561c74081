-- ===== src/Routing/Tests.antt =====
-- The routing components at small inputs.
use alpha_smart_router.Routing.Registry.Overtaken.{mutate_late, overtaken_lem}
use alpha_smart_router.Base.{
  ◌≤◌, ◌≡◌, ◌≢◌, ◌⊎◌, ◌↔◌, refl, true, none, some, List, [], ◌∷◌, map, Text, text, text_eq, find,
  text_key, text_lt, emplace,
}
use mathlib.Core.List.{Nodup}
use alpha_smart_router.Routing.Pop.{PopList, default_pop}
use alpha_smart_router.Routing.Validation.{
  InetPton, validate_id, validate_pops, max_pops_per_service, ids_of,
}
use alpha_smart_router.Routing.Validation.Unique.{AllFieldsValid, validate_pops_iff}
use alpha_smart_router.Routing.Registry.{ok, add, ServiceRegistry, create, deref, current, mutate}
use alpha_smart_router.Routing.Registry.Calls.{Call, code, erased, adding, upserting, removing, run}
use alpha_smart_router.Routing.Registry.Invariant.{IsValid, registry-IsValid}
use alpha_smart_router.Routing.Registry.Requests.{
  Request, changing, copying, having, sizing, listing, versioning,
}
use alpha_smart_router.Routing.Registry.Requests
use alpha_smart_router.Routing.Registry.Directory
use alpha_smart_router.Routing.Registry.Views.{view, seen}
use alpha_smart_router.Routing.Registry.Refine.{run_refines_directory}
use alpha_smart_router.Routing.Registry.Indistinct.{observed, indistinct_iff}
use alpha_smart_router.Routing.BgpOracle.{SimRoute, SimRouteMap, serving_pop, default_route}

-- An `inet_pton` that knows one address.
abbrev inet : InetPton
inet family t = text_eq t (text "10.0.0.1")

abbrev web : Text
web = text "web"

abbrev pops : PopList
pops =
    default_pop (text "pop-a") (text "eu") (text "10.0.0.1")
    ∷ default_pop (text "pop-b") (text "us") (text "10.0.0.1")
    ∷ []

abbrev other_pops : PopList
other_pops = default_pop (text "pop-c") (text "eu") (text "10.0.0.1") ∷ []

validate_pops_iff_example :
    (validate_pops inet pops ≡ true)
    ↔ ((1 ≤ 2) × (2 ≤ max_pops_per_service) × AllFieldsValid inet pops × Nodup (ids_of pops))
validate_pops_iff_example = validate_pops_iff inet pops

abbrev stored : List Call
stored = adding web pops ∷ []

abbrev registry : ServiceRegistry
registry = (run inet create stored).1

registry_holds : IsValid inet registry
registry_holds = registry-IsValid inet stored

registry-IsValid_example : IsValid inet registry
registry-IsValid_example = registry-IsValid inet stored

-- What a reader and a writer may ask in turn.
abbrev requests : List Request
requests =
    changing (adding web pops)
    ∷ copying web
    ∷ changing (upserting web other_pops)
    ∷ having web
    ∷ listing
    ∷ changing (removing web)
    ∷ sizing
    ∷ versioning
    ∷ []

run_refines_directory_example :
    let (responses, r) = Requests.run inet create requests in
    (map seen responses, view r) ≡ Directory.run inet Directory.empty requests
run_refines_directory_example = run_refines_directory inet requests

upsert_keeps :
    (Directory.run inet Directory.empty requests).0
    ≡ Directory.replied (code ok)
      ∷ Directory.pops pops
      ∷ Directory.replied (code ok)
      ∷ Directory.there true
      ∷ Directory.names (λ k. Directory.found (Directory.put web pops (λ _. none) k)) 1
      ∷ Directory.replied (erased true)
      ∷ Directory.amount 0
      ∷ Directory.amount 3
      ∷ []
unfolding Directory.run Directory.serve Directory.mutate Directory.accept Directory.remove
    validate_id validate_pops text_eq text_lt
upsert_keeps = refl

abbrev api : Text
api = text "api"

-- The same services, added in two orders.
abbrev one_way : List Call
one_way = adding web pops ∷ adding api other_pops ∷ []

abbrev other_way : List Call
other_way = adding api other_pops ∷ adding web pops ∷ []

indistinct_iff_example :
    let r = (run inet create one_way).1 in
    let s = (run inet create other_way).1 in
    ((qs : List Request) → observed inet r qs ≡ observed inet s qs) ↔ (view r ≡ view s)
indistinct_iff_example =
    indistinct_iff inet (run inet create one_way).1 (run inet create other_way).1
      (registry-IsValid inet one_way) (registry-IsValid inet other_way)

-- Two routes that tie, and a better one.
abbrev near : SimRoute
near = default_route (text "pop-b")

abbrev nearer : SimRoute
nearer = record near { as_path_len = 1 }

abbrev tied : SimRoute
tied = default_route (text "pop-a")

abbrev routes : SimRouteMap
routes = (web, near ∷ nearer ∷ tied ∷ []) ∷ []

serves_nearer : serving_pop routes web [] ≡ some (text "pop-b")
unfolding serving_pop find text_eq text_lt
serves_nearer = refl

abbrev dns : Text
dns = text "dns"

-- `addService` of `dns` takes its snapshot, `addService` of `web` runs, and the first goes on.
lost_web :
    let seen = (run inet create []).1 in
    let now = (run inet seen stored).1 in
    let (e, r) = mutate_late inet add seen now dns other_pops in
    (e ≡ ok)
    × (find web (current now) ≡ some pops)
    × (find web (current r) ≡ none)
    × (r.version ≡ 2)
unfolding mutate_late run current find validate_id validate_pops text_eq create deref text_lt
    emplace
lost_web = (refl, refl, refl, refl)

overtaken_lem_example :
    let seen = (run inet create []).1 in
    let now = (run inet seen stored).1 in
    let (e, r) = mutate_late inet add seen now dns other_pops in
    let (e', r') = mutate inet add seen dns other_pops in
    (e ≡ e') × ((e ≢ ok) ⊎ (current r ≡ current r'))
overtaken_lem_example = overtaken_lem inet [] stored add dns other_pops
