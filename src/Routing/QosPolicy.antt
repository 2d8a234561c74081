-- ===== src/Routing/QosPolicy.antt =====
-- `QoSPolicy` of include/alpha/routing/qos_policy.hpp and src/alpha/routing/qos_policy.cpp.
pub mod Best
mod Tests
use alpha_smart_router.Base.{
  ℕ, zero, suc, Bool, true, false, ◌&&◌, not, Option, none, some, List, [], ◌∷◌, leb, ◌==◌,
  if◌then◌else◌, Text, find, Eq, ◌≡◌, ◌↔◌, refl, arith,
}
use alpha_smart_router.Routing.Doubles.{Doubles}

pub data QosClass : Type 0 where
  bulk best_effort interactive realtime : QosClass

pub class_eq : QosClass → QosClass → Bool
class_eq bulk bulk = true
class_eq best_effort best_effort = true
class_eq interactive interactive = true
class_eq realtime realtime = true
class_eq a b = false

pub class_eq_iff : (a b : QosClass) → (class_eq a b ≡ true) ↔ (a ≡ b)
unfolding class_eq
class_eq_iff a b = ground arith

instance abbrev pub class_key : Eq QosClass
class_key = record { beq = class_eq; beq_iff = class_eq_iff }

-- `find(clazz)` in a map, or the value that stands in for a class that it lacks.
abbrev pub find_or {ℓ} : {A : Type ℓ} → QosClass → A → List (QosClass × A) → A
find_or clazz other m = elim (find clazz m) [ none ↦ other | some a ↦ a ]

module _ (d : Doubles) where
  open d use {Double, gt, ge, add, sub, mul, div, of_nat, tiny}

  pub record QosThresholds : Type 0 where
    pub max_latency_us : ℕ
    pub max_jitter_us : ℕ
    pub max_loss : Double

  pub record QosWeights : Type 0 where
    pub latency : Double
    pub jitter : Double
    pub loss : Double

  pub record PathMetrics : Type 0 where
    pub path_id : Text
    pub latency_us : ℕ
    pub jitter_us : ℕ
    pub loss : Double

  pub record QosScore : Type 0 where
    pub path_id : Text
    pub score : Double
    pub within_thresholds : Bool

  -- `default_thresholds` is `QoSThresholds{}`, of which `0.01` is a double.
  pub record QosConfig : Type 0 where
    pub thresholds_by_class : List (QosClass × QosThresholds)
    pub default_thresholds : QosThresholds
    pub weights : QosWeights
    pub dscp_by_class : List (QosClass × ℕ)

  unfoldable pub dscp : QosConfig → QosClass → ℕ
  unfolding find class_eq
  dscp cfg clazz = find_or clazz 0 cfg.dscp_by_class

  -- `std::max(a, b)`
  abbrev max : Double → Double → Double
  max a b = if gt b a then b else a

  -- `1.0 / (1.0 + std::max(0.0, ratio - 1.0))`
  abbrev decay : Double → Double
  decay ratio = div (of_nat 1) (add (of_nat 1) (max (of_nat 0) (sub ratio (of_nat 1))))

  pub normalize_latency : (latency_us target_us : ℕ) → Double
  normalize_latency latency_us target_us =
      if target_us == 0 then of_nat 0 else decay (div (of_nat latency_us) (of_nat target_us))

  pub normalize_jitter : (jitter_us target_us : ℕ) → Double
  normalize_jitter jitter_us target_us =
      if target_us == 0 then of_nat 0 else decay (div (of_nat jitter_us) (of_nat target_us))

  pub normalize_loss : (loss target : Double) → Double
  normalize_loss loss target = if ge (of_nat 0) target then of_nat 0 else decay (div loss target)

  -- `std::clamp(raw, 0.0, 1.0)`
  abbrev pub clamp : Double → Double
  clamp raw = if gt (of_nat 0) raw then of_nat 0 else if gt raw (of_nat 1) then of_nat 1 else raw

  pub blend : (nlat njit nloss : Double) → QosWeights → Double
  blend nlat njit nloss w =
      let sumw = max tiny (add (add w.latency w.jitter) w.loss) in
      let raw = div (add (add (mul nlat w.latency) (mul njit w.jitter)) (mul nloss w.loss)) sumw in
      clamp raw

  unfoldable pub score_path : QosConfig → PathMetrics → QosClass → QosScore
  unfolding normalize_latency normalize_jitter normalize_loss blend find class_eq
  score_path cfg pm clazz =
      let th = find_or clazz cfg.default_thresholds cfg.thresholds_by_class in
      let nlat = normalize_latency pm.latency_us th.max_latency_us in
      let njit = normalize_jitter pm.jitter_us th.max_jitter_us in
      let nloss = normalize_loss pm.loss th.max_loss in
      record {
        path_id = pm.path_id;
        score = blend nlat njit nloss cfg.weights;
        within_thresholds =
            leb pm.latency_us th.max_latency_us
            && (leb pm.jitter_us th.max_jitter_us && ge th.max_loss pm.loss);
      }

  -- `best = s` if there is none yet or `s` scores higher.
  unfoldable pub better : Option QosScore → QosScore → Option QosScore
  better none s = some s
  better (some best) s = if gt s.score best.score then some s else some best

  -- The loops of `choose_best`; only what complies counts if `strict`.
  unfoldable pub pick :
      QosConfig → QosClass → (strict : Bool) → Option QosScore → List PathMetrics → Option QosScore
  unfolding better score_path
  pick cfg clazz strict best [] = best
  pick cfg clazz strict best (pm ∷ pms) =
      let s = score_path cfg pm clazz in
      pick cfg clazz strict (if strict && not s.within_thresholds then best else better best s) pms

  unfoldable pub choose_best :
      QosConfig → List PathMetrics → QosClass → (require_within_thresholds : Bool) → Option QosScore
  unfolding pick
  choose_best cfg candidates clazz require_within_thresholds =
      elim (pick cfg clazz require_within_thresholds none candidates) [
        | some best ↦ some best
        | none ↦ if require_within_thresholds then pick cfg clazz false none candidates else none
      ]
