-- ===== src/Routing/IngressSelector/Hashes.antt =====
-- The hash strategies of the ingress selector.
use alpha_smart_router.Base.{
  ◌%◌, ◌<◌, ◌≡◌, ◌≢◌, refl, ◌∙◌, ap, some, List, [], ◌∷◌, Text, arith, length, get_elem?,
  lt-get_elem?,
}
use native.Mathlib.Nat.{mod-lt}
use alpha_smart_router.Routing.Validation.{ids_of}
use alpha_smart_router.Routing.IngressSelector.{
  IngressSelector, IngressStrategy, by_strategy, choose_policy_deterministic, choose_ingress,
  choose_ingress_for, mix, policy_deterministic, round_robin, hash_source_ip, hash_5_tuple,
}
use alpha_smart_router.Routing.IngressSelector.Turns.{asks_none}

by_hash :
    (s : IngressSelector) (strategy : IngressStrategy) (ids : List Text)
    → strategy ≢ round_robin
    → by_strategy s strategy ids 0 ≡ (get_elem? ids (mix 0 s.cfg.seed % length ids), s)
unfolding by_strategy
by_hash s round_robin ids hashes = absurd (hashes refl)
by_hash s hash_source_ip ids hashes = refl
by_hash s hash_5_tuple ids hashes = refl

local_choice :
    (s : IngressSelector) (ids : List Text)
    → s.cfg.strategy ≢ round_robin
    → 0 < length ids
    → choose_policy_deterministic s ids 0 ≡ (get_elem? ids (mix 0 s.cfg.seed % length ids), s)
unfolding choose_policy_deterministic
local_choice s [] hashes lt = absurd (omega arith)
local_choice s (id ∷ ids) hashes lt = by_hash s s.cfg.strategy (id ∷ ids) hashes

-- With a hash strategy, in the mode that asks no oracle, with at least one point of presence, all
-- services and all clients are sent to one of the list, which the seed alone selects, and the
-- selector stays as it is.
pub hashes_pinned :
    (s : IngressSelector)
    → s.cfg.mode ≡ policy_deterministic
    → s.cfg.strategy ≢ round_robin
    → 0 < length (ids_of s.pops)
    → (id : Text) × (get_elem? (ids_of s.pops) (mix 0 s.cfg.seed % length (ids_of s.pops))
        ≡ some id)
      × ((service client : Text)
          → (choose_ingress s service ≡ (some id, s))
            × (choose_ingress_for s service client ≡ (some id, s)))
unfolding choose_ingress choose_ingress_for
hashes_pinned s local hashes lt =
    let (id, there) =
      lt-get_elem? (ids_of s.pops) (mix 0 s.cfg.seed % length (ids_of s.pops)) (mod-lt _ lt) in
    let choice = local_choice s (ids_of s.pops) hashes lt ∙ ap (λ o. (o, s)) there in
    (
      id,
      there,
      λ service client. (
        rw (asks_none s s.cfg.mode service [] local, choose_ingress) choice,
        rw
            (
              asks_none s s.cfg.mode service client local,
              asks_none s s.cfg.mode service [] local,
              choose_ingress_for,
              choose_ingress,
            )
            choice,
      ),
    )
