-- ===== src/Config/Loader/Defaults.antt =====
-- What the components do with the configuration that the loader returns.
use alpha_smart_router.Base.{
  ℕ, ◌*◌, ◌^◌, ◌≤◌, ◌<◌, ◌≡◌, ◌≢◌, ◌∙◌, refl, sym, Bool, true, false, ◌&&◌, Option, none, some,
  List, [], ◌∷◌, ap, arith, leb, Text, text, subst, if◌then◌else◌,
}
use alpha_smart_router.Routing.Doubles.{Doubles}
use alpha_smart_router.Routing.QosPolicy.{
  QosClass, bulk, best_effort, interactive, realtime, PathMetrics, QosScore, dscp, score_path,
}
use alpha_smart_router.Routing.FailoverPolicy.{
  PathHealth, FailoverConfig, FailoverDecision, find_score, is_down, state_of, evaluate,
  evaluate_best, from_current, to_primary, best_of,
}
use alpha_smart_router.Config.Loader.{load_from_file}
use alpha_smart_router.Config.Constants.{decimal}

-- How demanding a class is.
abbrev pub rank : QosClass → ℕ
rank bulk = 0
rank best_effort = 1
rank interactive = 2
rank realtime = 3

-- `>=` of doubles, also of NaN, and the monotony of the nearest double to a quotient of two integers
-- that are themselves doubles.
pub record Monotone (d : Doubles) : Type 0 where
  pub ge_trans : (a b c : d.Double) → d.ge a b ≡ true → d.ge b c ≡ true → d.ge a c ≡ true
  pub div_mono :
      (a b n k : ℕ)
      → 0 < b
      → b < 2 ^ 32
      → 0 < k
      → k < 2 ^ 32
      → a < 2 ^ 32
      → n < 2 ^ 32
      → n * b ≤ a * k
      → d.ge (decimal d a b) (decimal d n k) ≡ true

abbrev codepoint : QosClass → ℕ
codepoint bulk = 8
codepoint best_effort = 0
codepoint interactive = 40
codepoint realtime = 46

codepoint_inj : (a b : QosClass) → codepoint a ≡ codepoint b → a ≡ b
codepoint_inj a b e = ground arith

dscp-load :
    (d : Doubles) (path : Text) (a : QosClass) → dscp d (load_from_file d path).qos a ≡ codepoint a
unfolding load_from_file dscp
dscp-load d path bulk = refl
dscp-load d path best_effort = refl
dscp-load d path interactive = refl
dscp-load d path realtime = refl

-- Under the loaded configuration each class has a codepoint of its own, below 64, and best effort
-- has 0.
pub load_dscp :
    (d : Doubles) (path : Text) (a b : QosClass)
    → let cfg = (load_from_file d path).qos in
      (dscp d cfg a < 64) × (dscp d cfg a ≡ dscp d cfg b → a ≡ b) × (dscp d cfg best_effort ≡ 0)
load_dscp d path a b = (
  ground (arith, dscp-load d path a),
  λ e. codepoint_inj a b (sym (dscp-load d path a) ∙ e ∙ dscp-load d path b),
  dscp-load d path best_effort,
)

-- The targets of a class.
abbrev latency_of : QosClass → ℕ
latency_of bulk = 20000
latency_of best_effort = 15000
latency_of interactive = 8000
latency_of realtime = 4000

abbrev jitter_of : QosClass → ℕ
jitter_of bulk = 10000
jitter_of best_effort = 8000
jitter_of interactive = 3000
jitter_of realtime = 1500

-- The loss target is the decimal of these two.
abbrev loss_num : QosClass → ℕ
loss_num bulk = 5
loss_num best_effort = 2
loss_num interactive = 1
loss_num realtime = 5

abbrev loss_den : QosClass → ℕ
loss_den realtime = 1000
loss_den a = 100

loss_order : (a b : QosClass) → rank a ≤ rank b → loss_num b * loss_den a ≤ loss_num a * loss_den b
loss_order a b le = ground arith

loss_small : (a : QosClass) → (0 < loss_den a) × (loss_den a < 2 ^ 32) × (loss_num a < 2 ^ 32)
loss_small a = ground arith

targets_order :
    (a b : QosClass) → rank a ≤ rank b → (latency_of b ≤ latency_of a) × (jitter_of b ≤ jitter_of a)
targets_order a b le = ground arith

module _ (d : Doubles) (path : Text) (pm : PathMetrics d) where
  abbrev within : QosClass → Bool
  within a = (score_path d (load_from_file d path).qos pm a).within_thresholds

  within-load :
      (a : QosClass)
      → within a ≡ (
          leb pm.latency_us (latency_of a)
          && (leb pm.jitter_us (jitter_of a) && d.ge (decimal d (loss_num a) (loss_den a)) pm.loss))
  unfolding load_from_file score_path
  within-load bulk = refl
  within-load best_effort = refl
  within-load interactive = refl
  within-load realtime = refl

  -- Under the loaded configuration a path that complies with the thresholds of a class complies with
  -- those of every class that is less demanding.
  pub load_compliance :
      Monotone d → (a b : QosClass) → rank a ≤ rank b → within b ≡ true → within a ≡ true
  load_compliance mono a b le ok =
      let (pos_a, den_a, num_a) = loss_small a in
      let (pos_b, den_b, num_b) = loss_small b in
      let loss =
        mono.div_mono (loss_num a) (loss_den a) (loss_num b) (loss_den b) pos_a den_a pos_b den_b
          num_a num_b (loss_order a b le) in
      let (latency, jitter) = targets_order a b le in
      ground (
        arith,
        within-load a,
        within-load b,
        loss,
        mono.ge_trans (decimal d (loss_num a) (loss_den a)) (decimal d (loss_num b) (loss_den b))
            pm.loss,
      )

abbrev NotReturn : Option FailoverDecision → Type 0
NotReturn none = Unit
NotReturn (some decision) = decision.reason ≢ text "return_to_primary"

-- The first byte.
abbrev first : Text → ℕ
first [] = 0
first (c ∷ cs) = c

-- A reason that starts with another letter.
other-NotReturn :
    (id reason : Text)
    → first reason ≢ 114
    → NotReturn (some (record { next_path_id = id; reason = reason }))
other-NotReturn id reason differ e = differ (ap first e)

NotReturn-if :
    (b : Bool) (x y : Option FailoverDecision)
    → NotReturn x
    → NotReturn y
    → NotReturn (if b then x else y)
NotReturn-if true x y p q = p
NotReturn-if false x y p q = q

module _ (d : Doubles) (path : Text) (current : Text) (scores : List (QosScore d))
    (health : List PathHealth) (now : ℕ) where
  abbrev cfg : FailoverConfig d
  cfg = (load_from_file d path).failover

  to_primary-load : (best : QosScore d) → to_primary d cfg current scores health now best ≡ none
  unfolding load_from_file to_primary
  to_primary-load best = refl

  from_current-NotReturn :
      (best : QosScore d) (cur : Option (QosScore d))
      → NotReturn (from_current d cfg current scores health now best cur)
  unfolding from_current
  from_current-NotReturn best none =
      other-NotReturn best.path_id (text "no_current_score") (λ e. absurd (omega (arith, e)))
  from_current-NotReturn best (some cur) =
      NotReturn-if _
        (some
          (record { next_path_id = best.path_id; reason = text "better_candidate_with_margin" }))
        (to_primary d cfg current scores health now best)
        (other-NotReturn best.path_id (text "better_candidate_with_margin")
          (λ e. absurd (omega (arith, e))))
        (subst NotReturn (sym (to_primary-load best)) tt)

  evaluate-NotReturn : NotReturn (evaluate d cfg current scores health now)
  unfolding evaluate evaluate_best
  evaluate-NotReturn = of_best (best_of d health none scores)
    where
      of_best :
          (best : Option (QosScore d))
          → NotReturn
              (elim best [ none ↦ none | some b ↦ evaluate_best d cfg current scores health now b ])
      of_best none = tt
      of_best (some best) =
          NotReturn-if (is_down (state_of current health))
            (some (record { next_path_id = best.path_id; reason = text "current_down" })) _
            (other-NotReturn best.path_id (text "current_down") (λ e. absurd (omega (arith, e))))
            (from_current-NotReturn best (find_score d scores current))

  returns_enabled : cfg.return_to_primary ≡ true
  unfolding load_from_file
  returns_enabled = refl

  -- The loaded configuration enables the return to the primary path but names none: no decision is
  -- ever a return to it, whatever the paths and the time.
  pub load_returns :
      (decision : FailoverDecision)
      → evaluate d cfg current scores health now ≡ some decision
      → (cfg.return_to_primary ≡ true) × (decision.reason ≢ text "return_to_primary")
  load_returns decision e = (returns_enabled, subst NotReturn e evaluate-NotReturn)
