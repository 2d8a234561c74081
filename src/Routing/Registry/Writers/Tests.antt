-- ===== src/Routing/Registry/Writers/Tests.antt =====
-- Two writers of a `ServiceRegistry` at once.
use alpha_smart_router.Base.{
  ℕ, ◌<◌, ◌≡◌, ◌≢◌, refl, none, some, [], ◌∷◌, length, Text, text, text_eq, text_lt, find, emplace,
  text_key,
}
use alpha_smart_router.Routing.Pop.{PopList, default_pop}
use alpha_smart_router.Routing.Validation.{InetPton, validate_id, validate_pops}
use alpha_smart_router.Routing.Registry.{ok, Mode, Map, create, current, deref}
use alpha_smart_router.Routing.Registry.State.{outcome, copy_outcome}
use alpha_smart_router.Routing.Registry.ValidMap.{ValidMap}
use alpha_smart_router.Routing.Registry.Writers.{
  mutated, storing, versioning, Shared, with_map, mutating, store, Reach, start, here, next,
}
use alpha_smart_router.Routing.Registry.Writers.Consistent.{Reach-consistent}

abbrev inet : InetPton
inet family t = text_eq t (text "10.0.0.1")

abbrev web : Text
web = text "web"

abbrev dns : Text
dns = text "dns"

abbrev pops : PopList
pops = default_pop (text "pop-a") (text "eu") (text "10.0.0.1") ∷ []

abbrev web_map : Map
web_map = (web, pops) ∷ []

abbrev dns_map : Map
dns_map = (dns, pops) ∷ []

-- Both have taken their snapshot of the empty map.
abbrev both : Shared
both = with_map (with_map start web_map (mutated Mode.add)) dns_map (mutated Mode.add)

web_added : outcome inet Mode.add (current start.registry) web pops ≡ (ok, web_map)
unfolding outcome copy_outcome current create deref validate_id validate_pops text_eq text_lt find
    emplace
web_added = refl

dns_added :
    outcome inet Mode.add (current (with_map start web_map (mutated Mode.add)).registry) dns pops
    ≡ (ok, dns_map)
unfolding outcome copy_outcome current create deref validate_id validate_pops text_eq text_lt find
    emplace
dns_added = refl

both-Reach : Reach inet start both
both-Reach =
    next (next here (mutating Mode.add web pops web_map web_added))
      (mutating Mode.add dns pops dns_map dns_added)

-- The first has stored its map, the second is about to.
abbrev stored : Shared
stored = record both {
  registry = record (both.registry) { published = some 1 };
  writers = storing 2 (mutated Mode.add) ∷ versioning (mutated Mode.add) ∷ [];
}

stores_first : Reach inet both stored
unfolding create
stores_first = next here (store (storing 2 (mutated Mode.add) ∷ []) [] 1 (mutated Mode.add) refl)

Reach-consistent_example :
    (both.registry.published ≢ none)
    × ValidMap inet (current both.registry)
    × ((p : ℕ)
        → p < length both.registry.heap
        → deref stored.registry.heap p ≡ deref both.registry.heap p)
Reach-consistent_example = Reach-consistent inet both-Reach stores_first
