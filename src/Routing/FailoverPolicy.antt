-- ===== src/Routing/FailoverPolicy.antt =====
-- `FailoverPolicy` of include/alpha/routing/failover_policy.hpp and
-- src/alpha/routing/failover_policy.cpp.
-- A time point is the count of nanoseconds of the steady clock, which is not negative.
pub mod Decisions
mod Scores
pub mod Switches
pub mod Scored
mod Tests
use alpha_smart_router.Base.{
  ℕ, ◌+◌, ◌-◌, ◌/◌, Bool, true, false, ◌&&◌, ◌||◌, not, Option, none, some, List, [], ◌∷◌, leb,
  ◌==◌, if◌then◌else◌, Text, text, text_eq,
}
use alpha_smart_router.Routing.Doubles.{Doubles}
use alpha_smart_router.Routing.Validation.{is_empty}
use alpha_smart_router.Routing.QosPolicy.{QosScore}

pub data HealthState : Type 0 where
  up degraded down : HealthState

pub record PathHealth : Type 0 where
  pub path_id : Text
  pub state : HealthState
  pub last_change : ℕ

pub record FailoverDecision : Type 0 where
  pub next_path_id : Text
  pub reason : Text

abbrev pub is_down : HealthState → Bool
is_down down = true
is_down s = false

-- `state_of`; a path that is not listed is down.
unfoldable pub state_of : Text → List PathHealth → HealthState
state_of id [] = down
state_of id (ph ∷ h) = if text_eq ph.path_id id then ph.state else state_of id h

-- The `last_change` of the path that `find_if` finds, or a time point of zero.
pub last_change_of : Text → List PathHealth → ℕ
last_change_of id [] = 0
last_change_of id (ph ∷ h) = if text_eq ph.path_id id then ph.last_change else last_change_of id h

-- `allow_switch`. The difference of the times is cut to milliseconds towards zero, so of a `last`
-- that is less than one ahead it is 0.
pub allow_switch : (last now hold_ms : ℕ) → Bool
allow_switch last now hold_ms =
    last == 0
    || (if leb last now
        then leb hold_ms ((now - last) / 1000000)
        else (((last - now) / 1000000 == 0) && (hold_ms == 0)))

module _ (d : Doubles) where
  open d use {Double, gt, ge, add, mul, of_nat}

  pub record FailoverConfig : Type 0 where
    pub primary_path_id : Text
    pub return_to_primary : Bool
    pub improve_pct_to_switch : Double
    pub min_hold_ms : ℕ
    pub recovery_hold_ms : ℕ

  unfoldable pub find_score : List (QosScore d) → Text → Option (QosScore d)
  find_score [] id = none
  find_score (s ∷ v) id = if text_eq s.path_id id then some s else find_score v id

  -- The body of the loop for the best candidate.
  unfoldable pub improve : List PathHealth → Option (QosScore d) → QosScore d → Option (QosScore d)
  unfolding state_of
  improve health best s =
      if is_down (state_of s.path_id health)
      then best
      else elim best [ none ↦ some s | some b ↦ if gt s.score b.score then some s else some b ]

  unfoldable pub best_of :
      List PathHealth → Option (QosScore d) → List (QosScore d) → Option (QosScore d)
  unfolding improve
  best_of health best [] = best
  best_of health best (s ∷ scores) = best_of health (improve health best s) scores

  -- The last test of the return-to-primary logic, with the primary's score.
  unfoldable pub to_scored_primary :
      FailoverConfig
      → List PathHealth
      → ℕ
      → QosScore d
      → Option (QosScore d)
      → Option FailoverDecision
  unfolding state_of last_change_of allow_switch
  to_scored_primary cfg health now best none = none
  to_scored_primary cfg health now best (some prim) =
      let primary = cfg.primary_path_id in
      if not (is_down (state_of primary health))
        && (ge prim.score best.score
            && allow_switch (last_change_of primary health) now cfg.recovery_hold_ms)
      then some (record { next_path_id = primary; reason = text "return_to_primary" })
      else none

  -- The return-to-primary logic, with the best candidate.
  unfoldable pub to_primary :
      FailoverConfig
      → Text
      → List (QosScore d)
      → List PathHealth
      → ℕ
      → QosScore d
      → Option FailoverDecision
  unfolding find_score to_scored_primary
  to_primary cfg current scores health now best =
      let primary = cfg.primary_path_id in
      if cfg.return_to_primary && (not (is_empty primary) && not (text_eq primary current))
      then to_scored_primary cfg health now best (find_score scores primary)
      else none

  -- From the stickiness on, with the best candidate and the current path's score.
  unfoldable pub from_current :
      FailoverConfig
      → Text
      → List (QosScore d)
      → List PathHealth
      → ℕ
      → QosScore d
      → Option (QosScore d)
      → Option FailoverDecision
  unfolding last_change_of allow_switch to_primary
  from_current cfg current scores health now best none =
      some (record { next_path_id = best.path_id; reason = text "no_current_score" })
  from_current cfg current scores health now best (some cur) =
      let needed = mul cur.score (add (of_nat 1) cfg.improve_pct_to_switch) in
      if not (text_eq best.path_id current)
        && (ge best.score needed
            && allow_switch (last_change_of current health) now cfg.min_hold_ms)
      then some
          (record { next_path_id = best.path_id; reason = text "better_candidate_with_margin" })
      else to_primary cfg current scores health now best

  -- `evaluate` with the best candidate.
  unfoldable pub evaluate_best :
      FailoverConfig
      → Text
      → List (QosScore d)
      → List PathHealth
      → ℕ
      → QosScore d
      → Option FailoverDecision
  unfolding state_of find_score from_current
  evaluate_best cfg current scores health now best =
      if is_down (state_of current health)
      then some (record { next_path_id = best.path_id; reason = text "current_down" })
      else from_current cfg current scores health now best (find_score scores current)

  unfoldable pub evaluate :
      FailoverConfig → Text → List (QosScore d) → List PathHealth → ℕ → Option FailoverDecision
  unfolding best_of evaluate_best
  evaluate cfg current scores health now = elim (best_of health none scores) [
    | none ↦ none
    | some best ↦ evaluate_best cfg current scores health now best
  ]
