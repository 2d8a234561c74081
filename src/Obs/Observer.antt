-- ===== src/Obs/Observer.antt =====
-- `SimpleObserver` of include/alpha/obs/observability.hpp and src/alpha/obs/observability.cpp.
-- `record` also prints a line, which is left out; its mutex makes each call one step.
pub mod Records
pub mod Triggers
mod Tests
use alpha_smart_router.Base.{
  ℕ, ◌+◌, ◌%◌, ◌^◌, Bool, true, false, ◌&&◌, ◌||◌, not, List, [], ◌∷◌, ◌==◌, if◌then◌else◌, Text,
  text, text_eq,
}
use alpha_smart_router.Routing.Doubles.{Doubles}
use alpha_smart_router.Routing.QosPolicy.{QosClass, QosScore}

pub record Counters : Type 0 where
  pub decisions : ℕ
  pub failover_triggers : ℕ
  pub degraded_choices : ℕ

-- `Counters{}`
abbrev pub no_counters : Counters
no_counters = record { decisions = 0; failover_triggers = 0; degraded_choices = 0 }

-- `ctr++` of a std::uint64_t
abbrev pub increment : ℕ → ℕ
increment n = (n + 1) % 2 ^ 64

unfoldable pub starts_with : (needle t : Text) → Bool
starts_with [] t = true
starts_with (c ∷ cs) [] = false
starts_with (c ∷ cs) (x ∷ xs) = (c == x) && starts_with cs xs

-- `t.find(needle) != npos`
unfoldable pub contains : (needle t : Text) → Bool
unfolding starts_with
contains needle [] = starts_with needle []
contains needle (x ∷ xs) = starts_with needle (x ∷ xs) || contains needle xs

module _ (d : Doubles) where
  pub record DecisionEvent : Type 0 where
    pub decision_id : Text
    pub selected_path : Text
    pub clazz : QosClass
    pub best_score : d.Double
    pub strict_mode : Bool
    pub scored : List (QosScore d)
    pub reason : Text

  -- Whether the loop over the scores meets the selected path with a score out of its thresholds.
  unfoldable pub degraded : Text → List (QosScore d) → Bool
  degraded selected [] = false
  degraded selected (s ∷ scored) =
      if not s.within_thresholds && text_eq s.path_id selected
      then true
      else degraded selected scored

  -- `SimpleObserver::record`
  unfoldable pub record_event : Counters → DecisionEvent → Counters
  unfolding contains degraded
  record_event ctr e = record {
    decisions = increment ctr.decisions;
    failover_triggers =
        if contains (text "failover") e.reason
        then increment ctr.failover_triggers
        else ctr.failover_triggers;
    degraded_choices =
        if degraded e.selected_path e.scored
        then increment ctr.degraded_choices
        else ctr.degraded_choices;
  }
