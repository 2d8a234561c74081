-- ===== src/Routing/IngressSelector.antt =====
-- `IngressSelector` of include/alpha/routing/ingress_selector.hpp and
-- src/alpha/routing/ingress_selector.cpp.
-- A result `none` is an access outside the list of ids. The oracle is a `BgpOracle`, which takes
-- the empty text for no client.
pub mod Turns
pub mod Hashes
pub mod Informed
pub mod Registered
mod Tests
use alpha_smart_router.Base.{
  ℕ, ◌+◌, ◌*◌, ◌/◌, ◌%◌, ◌^◌, bit_xor, Option, none, some, List, [], ◌∷◌, Text, length, get_elem?,
  map,
}
use alpha_smart_router.Routing.Pop.{Pop, PopList}
use alpha_smart_router.Routing.BgpOracle.{BgpOracle}
use alpha_smart_router.Routing.Validation.{ids_of}

pub data IngressStrategy : Type 0 where
  round_robin hash_source_ip hash_5_tuple : IngressStrategy

pub data IngressMode : Type 0 where
  policy_deterministic route_informed : IngressMode

pub record IngressConfig : Type 0 where
  pub mode : IngressMode
  pub strategy : IngressStrategy
  pub seed : ℕ

abbrev pub ingress_hash_seed_default : ℕ
ingress_hash_seed_default = 0xA17A5EED

-- `IngressConfig{}`
abbrev pub default_config : IngressConfig
default_config = record {
  mode = policy_deterministic;
  strategy = round_robin;
  seed = ingress_hash_seed_default;
}

pub record IngressSelector : Type 0 where
  pub cfg : IngressConfig
  pub pops : PopList
  pub oracle : Option BgpOracle
  pub rr : ℕ

abbrev pub load_pops : IngressSelector → PopList → IngressSelector
load_pops s pops = record s { pops = pops }

abbrev pub update_config : IngressSelector → IngressConfig → IngressSelector
update_config s c = record s { cfg = c }

abbrev pub attach_oracle : IngressSelector → Option BgpOracle → IngressSelector
attach_oracle s oracle = record s { oracle = oracle }

-- `x ^= x >> 33`
abbrev fold : ℕ → ℕ
fold x = bit_xor x (x / 2 ^ 33)

-- `mix`, in `uint64_t`
unfoldable pub mix : (x seed : ℕ) → ℕ
mix x seed =
    let a = bit_xor x ((seed + 0x9e3779b97f4a7c15 + x * 2 ^ 6 % 2 ^ 64 + x / 2 ^ 2) % 2 ^ 64) in
    let b = fold a * 0xff51afd7ed558ccd % 2 ^ 64 in
    let c = fold b * 0xc4ceb9fe1a85ec53 % 2 ^ 64 in fold c

-- `choose_policy_deterministic`, with the selector that it leaves.
unfoldable pub by_strategy :
    IngressSelector → IngressStrategy → List Text → (flow_hash : ℕ) → Option Text × IngressSelector
unfolding mix
by_strategy s round_robin ids flow_hash =
    (get_elem? ids (s.rr % length ids), record s { rr = (s.rr + 1) % 2 ^ 64 })
by_strategy s hash_source_ip ids flow_hash =
    (get_elem? ids (mix flow_hash s.cfg.seed % length ids), s)
by_strategy s hash_5_tuple ids flow_hash =
    (get_elem? ids (mix flow_hash s.cfg.seed % length ids), s)

unfoldable pub choose_policy_deterministic :
    IngressSelector → List Text → (flow_hash : ℕ) → Option Text × IngressSelector
unfolding by_strategy
choose_policy_deterministic s [] flow_hash = (some [], s)
choose_policy_deterministic s (id ∷ ids) flow_hash =
    by_strategy s s.cfg.strategy (id ∷ ids) flow_hash

-- What the oracle answers, where it is asked.
unfoldable pub ask : IngressMode → Option BgpOracle → (service client : Text) → Option Text
ask route_informed (some oracle) service client = oracle service client
ask route_informed none service client = none
ask policy_deterministic oracle service client = none

-- `chooseIngress(serviceId)`
unfoldable pub choose_ingress : IngressSelector → Text → Option Text × IngressSelector
unfolding ask choose_policy_deterministic
choose_ingress s service = elim (ask s.cfg.mode s.oracle service []) [
  | some pop ↦ (some pop, s)
  | none ↦ choose_policy_deterministic s (ids_of s.pops) 0
]

-- `chooseIngress(serviceId, clientSrcIp)`
unfoldable pub choose_ingress_for :
    IngressSelector → (service client : Text) → Option Text × IngressSelector
unfolding ask choose_ingress
choose_ingress_for s service client = elim (ask s.cfg.mode s.oracle service client) [
  | some pop ↦ (some pop, s)
  | none ↦ choose_ingress s service
]
