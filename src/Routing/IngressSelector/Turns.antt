-- ===== src/Routing/IngressSelector/Turns.antt =====
-- Round robin over the points of presence.
use alpha_smart_router.Base.{
  ℕ, zero, suc, ◌+◌, ◌-◌, ◌%◌, ◌^◌, ◌≤◌, ◌<◌, ◌≡◌, refl, ◌∙◌, sym, ap, Option, none, some, List, [],
  ◌∷◌, Text, arith, length, get_elem?, get_elem?-lt, dec_lt,
}
use native.Mathlib.Nat.{mod-eq_of_lt, mod-lt, mod-add-mod, add-mod_right}
use alpha_smart_router.Routing.Validation.{ids_of}
use alpha_smart_router.Routing.IngressSelector.{
  IngressSelector, IngressMode, IngressStrategy, by_strategy, choose_policy_deterministic, ask,
  choose_ingress, policy_deterministic, route_informed, round_robin, hash_source_ip, hash_5_tuple,
}

-- The answers to `n` calls for a service.
unfoldable pub answers : (n : ℕ) → IngressSelector → Text → List (Option Text)
answers zero s service = []
answers (suc n) s service = let (out, s') = choose_ingress s service in out ∷ answers n s' service

-- The selector takes turns on its own, among `ids`.
pub record Turns (s : IngressSelector) (ids : List Text) : Type 0 where
  pub deterministic : s.cfg.mode ≡ policy_deterministic
  pub by_turns : s.cfg.strategy ≡ round_robin
  pub listed : ids_of s.pops ≡ ids
  pub present : 0 < length ids

pub asks_none :
    (s : IngressSelector) (mode : IngressMode) (service client : Text)
    → mode ≡ policy_deterministic
    → ask mode s.oracle service client ≡ none
unfolding ask
asks_none s policy_deterministic service client e = refl
asks_none s route_informed service client e = cc

by_turn :
    (s : IngressSelector) (strategy : IngressStrategy) (ids : List Text)
    → strategy ≡ round_robin
    → by_strategy s strategy ids 0
      ≡ (get_elem? ids (s.rr % length ids), record s { rr = (s.rr + 1) % 2 ^ 64 })
unfolding by_strategy
by_turn s round_robin ids e = refl
by_turn s hash_source_ip ids e = cc
by_turn s hash_5_tuple ids e = cc

one_turn :
    (s : IngressSelector) (ids : List Text) (service : Text)
    → Turns s ids
    → choose_ingress s service
      ≡ (get_elem? ids (s.rr % length ids), record s { rr = (s.rr + 1) % 2 ^ 64 })
unfolding choose_ingress choose_policy_deterministic
one_turn s [] service turns = absurd (omega (arith, turns.present))
one_turn s (id ∷ ids) service turns =
    rw (asks_none s s.cfg.mode service [] turns.deterministic, choose_ingress)
      (ap (λ l. choose_policy_deterministic s l 0) turns.listed
        ∙ by_turn s s.cfg.strategy (id ∷ ids) turns.by_turns)

-- The `i`-th of the answers.
answers_at :
    (n i : ℕ) (s : IngressSelector) (ids : List Text) (service : Text)
    → Turns s ids
    → s.rr + n ≤ 2 ^ 64
    → i < n
    → get_elem? (answers n s service) i ≡ some (get_elem? ids ((s.rr + i) % length ids))
unfolding answers
answers_at zero i s ids service turns small lt = absurd (omega arith)
answers_at (suc n) zero s ids service turns small lt =
    ap (λ (x : Option Text × IngressSelector). some x.0) (one_turn s ids service turns)
    ∙ ap (λ (k : ℕ). some (get_elem? ids (k % length ids))) (omega arith)
answers_at (suc n) (suc i) s ids service turns small lt =
    let s' = record s { rr = (s.rr + 1) % 2 ^ 64 } in
    let turns' : Turns s' ids = record {
      deterministic = turns.deterministic;
      by_turns = turns.by_turns;
      listed = turns.listed;
      present = turns.present;
    } in
    let stepped : (s.rr + 1) % 2 ^ 64 ≡ s.rr + 1 = mod-eq_of_lt (omega arith) in
    ap (λ (x : Option Text × IngressSelector). get_elem? (answers n x.1 service) i)
      (one_turn s ids service turns)
    ∙ answers_at n i s' ids service turns' (omega arith) (omega arith)
    ∙ ap (λ (k : ℕ). some (get_elem? ids (k % length ids))) (omega arith)

-- In the mode that asks no oracle, with the round-robin strategy, at least one point of presence,
-- and a counter that does not wrap: of as many calls in a row as there are points of presence, each
-- id of the list is the answer of one.
pub Turns-fair :
    (s : IngressSelector) (ids : List Text) (service : Text) (k : ℕ) (id : Text)
    → Turns s ids
    → s.rr + length ids ≤ 2 ^ 64
    → get_elem? ids k ≡ some id
    → (i : ℕ) × (i < length ids) × (get_elem? (answers (length ids) s service) i ≡ some (some id))
Turns-fair s ids service k id turns small there =
    let n = length ids in
    let r : ℕ = s.rr % n in
    let r_lt : r < n = mod-lt s.rr turns.present in
    let k_lt : k < n = get_elem?-lt ids k there in
    elim (dec_lt k r) [
      | yes before ↦ found (k + n - r) (omega arith) (
          sym (mod-add-mod s.rr n (k + n - r))
          ∙ ap (λ (t : ℕ). t % n) (omega arith)
          ∙ add-mod_right k n
          ∙ mod-eq_of_lt k_lt)
      | no after ↦ found (k - r) (omega arith) (
          sym (mod-add-mod s.rr n (k - r))
          ∙ ap (λ (t : ℕ). t % n) (omega arith)
          ∙ mod-eq_of_lt k_lt)
    ]
  where
    found :
        (i : ℕ)
        → i < length ids
        → (s.rr + i) % length ids ≡ k
        → (i : ℕ) × (i < length ids)
          × (get_elem? (answers (length ids) s service) i ≡ some (some id))
    found i lt at = (
      i,
      lt,
      answers_at (length ids) i s ids service turns small lt
          ∙ ap (λ (j : ℕ). some (get_elem? ids j)) at
          ∙ ap some there,
    )
