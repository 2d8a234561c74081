-- ===== src/Routing/FailoverPolicy/Scored.antt =====
-- `FailoverPolicy` on the scores that `QoSPolicy` gives to the paths (src/alpha/routing/qos_policy.cpp
-- and src/alpha/routing/failover_policy.cpp).
use alpha_smart_router.Base.{
  ◌≡◌, refl, ◌∙◌, ap, true, false, Option, none, some, List, [], ◌∷◌, map, if◌then◌else◌,
  Bool-cases, Option-cases, inl, inr, Text, text, ℕ,
}
use mathlib.Core.Option as Option
use alpha_smart_router.Routing.Doubles.{Doubles}
use alpha_smart_router.Routing.QosPolicy.{
  QosClass, PathMetrics, QosScore, QosConfig, score_path, better, pick, choose_best,
}
use alpha_smart_router.Routing.FailoverPolicy.{
  PathHealth, FailoverConfig, is_down, state_of, improve, best_of, evaluate_best, evaluate,
}

module _ (d : Doubles) (qos : QosConfig d) (clazz : QosClass) (health : List PathHealth) where
  -- The scores of the paths, in their order.
  abbrev pub scores_of : List (PathMetrics d) → List (QosScore d)
  scores_of pms = map (λ pm. score_path d qos pm clazz) pms

  -- The paths that are not down.
  unfoldable pub standing : List (PathMetrics d) → List (PathMetrics d)
  standing [] = []
  standing (pm ∷ pms) =
      if is_down (state_of pm.path_id health) then standing pms else pm ∷ standing pms

  improve-better :
      (best : Option (QosScore d)) (s : QosScore d)
      → is_down (state_of s.path_id health) ≡ false
      → improve d health best s ≡ better d best s
  unfolding improve better
  improve-better none s alive = rw (alive, improve, better) refl
  improve-better (some b) s alive = rw (alive, improve, better) refl

  improve_dead :
      (best : Option (QosScore d)) (s : QosScore d)
      → is_down (state_of s.path_id health) ≡ true
      → improve d health best s ≡ best
  unfolding improve
  improve_dead best s gone = rw (gone, improve) refl

  best_of-pick :
      (pms : List (PathMetrics d)) (best : Option (QosScore d))
      → best_of d health best (scores_of pms) ≡ pick d qos clazz false best (standing pms)
  unfolding best_of pick standing score_path
  best_of-pick [] best = refl
  best_of-pick (pm ∷ pms) best =
      let s = score_path d qos pm clazz in
      elim (Bool-cases (is_down (state_of pm.path_id health))) [
        | inl gone ↦
            rw (gone, standing)
              (ap (λ b. best_of d health b (scores_of pms)) (improve_dead best s gone)
                ∙ best_of-pick pms best)
        | inr alive ↦
            rw (alive, standing, pick)
              (ap (λ b. best_of d health b (scores_of pms)) (improve-better best s alive)
                ∙ best_of-pick pms (better d best s))
      ]

  pick-choose_best :
      (pms : List (PathMetrics d))
      → pick d qos clazz false none pms ≡ choose_best d qos pms clazz false
  unfolding choose_best
  pick-choose_best pms = elim (Option-cases (pick d qos clazz false none pms)) [
    | inl absent ↦ rw (absent, choose_best) refl
    | inr (best, there) ↦ rw (there, choose_best) refl
  ]

  -- When the current path is down, the failover policy on the scores of the QoS policy switches at
  -- once to the path that `choose_best` gives of those that are not down, whether or not it
  -- complies with the thresholds, and decides nothing exactly if it gives none.
  pub evaluate-choose_best :
      (cfg : FailoverConfig d) (current : Text) (pms : List (PathMetrics d)) (now : ℕ)
      → is_down (state_of current health) ≡ true
      → evaluate d cfg current (scores_of pms) health now
        ≡ Option.map
            (λ (best : QosScore d). record {
              next_path_id = best.path_id;
              reason = text "current_down";
            })
            (choose_best d qos (standing pms) clazz false)
  unfolding evaluate evaluate_best
  evaluate-choose_best cfg current pms now gone =
      let e = best_of-pick pms none ∙ pick-choose_best (standing pms) in
      elim (Option-cases (choose_best d qos (standing pms) clazz false)) [
        | inl absent ↦ rw (absent, e ∙ absent, evaluate) refl
        | inr (best, there) ↦ rw (there, e ∙ there, evaluate) (rw gone refl)
      ]
