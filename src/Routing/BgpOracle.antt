-- ===== src/Routing/BgpOracle.antt =====
-- The anycast oracle of include/alpha/routing/bgp_oracle.hpp and its simulator,
-- src/alpha/routing/bgp_oracle_sim.cpp.
pub mod Best
use alpha_smart_router.Base.{
  ℕ, Bool, true, false, Option, none, some, List, [], ◌∷◌, ltb, if◌then◌else◌, Text, text_lt, find,
  text_key, [],
}
use mathlib.Core.List.{foldl}

-- The defaults of include/alpha/config/constants.hpp for a route.
abbrev pub bgp_sim_default_local_pref : ℕ
bgp_sim_default_local_pref = 100

abbrev pub bgp_sim_default_as_path : ℕ
bgp_sim_default_as_path = 2

abbrev pub bgp_sim_default_med : ℕ
bgp_sim_default_med = 100

abbrev pub bgp_sim_default_igp_cost : ℕ
bgp_sim_default_igp_cost = 100

pub record SimRoute : Type 0 where
  pub pop_id : Text
  pub local_pref : ℕ
  pub as_path_len : ℕ
  pub med : ℕ
  pub igp_cost : ℕ

-- `SimRoute{pop_id}`
abbrev pub default_route : Text → SimRoute
default_route pop_id = record {
  pop_id = pop_id;
  local_pref = bgp_sim_default_local_pref;
  as_path_len = bgp_sim_default_as_path;
  med = bgp_sim_default_med;
  igp_cost = bgp_sim_default_igp_cost;
}

abbrev pub SimRouteMap : Type 0
SimRouteMap = List (Text × List SimRoute)

-- `BgpOracle::serving_pop`: the service, and the client, empty for none.
abbrev pub BgpOracle : Type 0
BgpOracle = Text → Text → Option Text

-- Whether an iteration of the loop makes `r` the best route in place of `best`.
unfoldable pub replaces : SimRoute → SimRoute → Bool
replaces r best =
    if ltb best.local_pref r.local_pref
    then true
    else if ltb r.local_pref best.local_pref
    then false
    else if ltb r.as_path_len best.as_path_len
    then true
    else if ltb best.as_path_len r.as_path_len
    then false
    else if ltb r.med best.med
    then true
    else if ltb best.med r.med
    then false
    else if ltb r.igp_cost best.igp_cost
    then true
    else if ltb best.igp_cost r.igp_cost
    then false
    else text_lt r.pop_id best.pop_id

unfoldable pub choose : SimRoute → List SimRoute → SimRoute
unfolding replaces
choose best [] = best
choose best (r ∷ rs) = choose (if replaces r best then r else best) rs

-- `SimulatedBgpOracle::serving_pop`, over its `routes_`.
unfoldable pub serving_pop : SimRouteMap → BgpOracle
unfolding find choose
serving_pop routes service_id client = elim (find service_id routes) [
  | none ↦ none
  | some [] ↦ none
  | some (r ∷ rs) ↦ some (choose r (r ∷ rs)).pop_id
]
