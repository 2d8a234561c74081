-- ===== src/Routing/FailoverPolicy/Switches.antt =====
-- When `FailoverPolicy::evaluate` recommends a switch, and to which path.
use alpha_smart_router.Base.{
  ℕ, ◌≡◌, ◌≢◌, ◌⊎◌, ◌↔◌, inl, inr, refl, ◌∙◌, ap, subst, Bool, true, false, ◌&&◌, not, Option, none,
  some, List, if◌then◌else◌, arith, Text, text, text_eq, text_eq_iff, ◌-◌, ◌≤◌, ◌*◌,
}
use mathlib.Core.List.{Mem}
use alpha_smart_router.Routing.Doubles.{Doubles}
use alpha_smart_router.Routing.Validation.{is_empty}
use alpha_smart_router.Routing.QosPolicy.{QosScore}
use alpha_smart_router.Routing.FailoverPolicy.{
  PathHealth, FailoverDecision, FailoverConfig, is_down, state_of, last_change_of, allow_switch,
  find_score, best_of, to_primary, to_scored_primary, from_current, evaluate_best, evaluate,
}
use alpha_smart_router.Routing.FailoverPolicy.Decisions.{IsBest, AllDown, Found, all-Found}
use alpha_smart_router.Routing.FailoverPolicy.Scores.{find_score-some, find_score-none}

-- A path that has changed its state, in the past, may be left after `hold_ms` milliseconds, in
-- nanoseconds, and not before.
pub allow_switch_iff :
    (last now hold_ms : ℕ)
    → last ≢ 0
    → last ≤ now
    → (allow_switch last now hold_ms ≡ true) ↔ (hold_ms * 1000000 ≤ now - last)
unfolding allow_switch
allow_switch_iff last now hold_ms changed past = (λ e. ground arith, λ le. ground arith)

module _ (d : Doubles) where
  module _ (cfg : FailoverConfig d) (current : Text) (scores : List (QosScore d))
      (health : List PathHealth) (now : ℕ) where
    -- A switch leads to another path, which has a score and is not down.
    abbrev pub Safe : FailoverDecision → Type 0
    Safe decision =
        (decision.next_path_id ≢ current)
        × (is_down (state_of decision.next_path_id health) ≡ false)
        × ((s : QosScore d) × Mem s scores × (s.path_id ≡ decision.next_path_id))

    abbrev SafeIf : Option FailoverDecision → Type 0
    SafeIf none = Unit
    SafeIf (some decision) = Safe decision

    if-SafeIf :
        (test : Bool) (x y : Option FailoverDecision)
        → (test ≡ true → SafeIf x)
        → (test ≡ false → SafeIf y)
        → SafeIf (if test then x else y)
    if-SafeIf true x y fx fy = fx refl
    if-SafeIf false x y fx fy = fy refl

    to_scored_primary-SafeIf :
        (best : QosScore d) (prim : Option (QosScore d))
        → find_score d scores cfg.primary_path_id ≡ prim
        → cfg.primary_path_id ≢ current
        → SafeIf (to_scored_primary d cfg health now best prim)
    unfolding to_scored_primary
    to_scored_primary-SafeIf best none e apart = tt
    to_scored_primary-SafeIf best (some prim) e apart =
        if-SafeIf
          (not (is_down (state_of cfg.primary_path_id health))
            && (d.ge prim.score best.score
                && allow_switch (last_change_of cfg.primary_path_id health) now
                    cfg.recovery_hold_ms))
          (some (record { next_path_id = cfg.primary_path_id; reason = text "return_to_primary" }))
          none
          (λ ready.
            let (there, same) = find_score-some d scores cfg.primary_path_id e in
            (apart, ground arith, (prim, there, same)))
          (λ _. tt)

    to_primary-SafeIf :
        (best : QosScore d) → SafeIf (to_primary d cfg current scores health now best)
    unfolding to_primary
    to_primary-SafeIf best =
        if-SafeIf
          (cfg.return_to_primary
            && (not (is_empty cfg.primary_path_id) && not (text_eq cfg.primary_path_id current)))
          (to_scored_primary d cfg health now best (find_score d scores cfg.primary_path_id)) none
          (λ wanted.
            to_scored_primary-SafeIf best (find_score d scores cfg.primary_path_id) refl
              (λ same. ground (arith, text_eq_iff cfg.primary_path_id current)))
          (λ _. tt)

    from_current-SafeIf :
        (best : QosScore d) (cur : Option (QosScore d))
        → IsBest d health scores best
        → find_score d scores current ≡ cur
        → SafeIf (from_current d cfg current scores health now best cur)
    unfolding from_current
    from_current-SafeIf best none is_best e = (
      find_score-none d scores current best e is_best.among,
      is_best.alive,
      (best, is_best.among, refl),
    )
    from_current-SafeIf best (some cur) is_best e =
        if-SafeIf
          (not (text_eq best.path_id current)
            && (d.ge best.score (d.mul cur.score (d.add (d.of_nat 1) cfg.improve_pct_to_switch))
                && allow_switch (last_change_of current health) now cfg.min_hold_ms))
          (some
            (record { next_path_id = best.path_id; reason = text "better_candidate_with_margin" }))
          (to_primary d cfg current scores health now best)
          (λ ready. (
            λ same. ground (arith, text_eq_iff best.path_id current),
            is_best.alive,
            (best, is_best.among, refl),
          ))
          (λ _. to_primary-SafeIf best)

    evaluate_best-SafeIf :
        (best : QosScore d)
        → IsBest d health scores best
        → SafeIf (evaluate_best d cfg current scores health now best)
    unfolding evaluate_best
    evaluate_best-SafeIf best is_best =
        if-SafeIf (is_down (state_of current health))
          (some (record { next_path_id = best.path_id; reason = text "current_down" }))
          (from_current d cfg current scores health now best (find_score d scores current))
          (λ gone. (
            λ same. absurd (cc (ap (λ id. is_down (state_of id health)) same, gone, is_best.alive)),
            is_best.alive,
            (best, is_best.among, refl),
          ))
          (λ alive. from_current-SafeIf best (find_score d scores current) is_best refl)

    evaluate-SafeIf : SafeIf (evaluate d cfg current scores health now)
    unfolding evaluate
    evaluate-SafeIf = of_best (best_of d health none scores) (all-Found d health scores)
      where
        of_best :
            (best : Option (QosScore d))
            → Found d health scores best
            → SafeIf (elim best [
              | none ↦ none
              | some b ↦ evaluate_best d cfg current scores health now b
            ])
        of_best none all_down = tt
        of_best (some b) is_best = evaluate_best-SafeIf b is_best

    -- A hold that has not passed leaves only the return to the primary.
    keeps :
        (best cur : QosScore d)
        → allow_switch (last_change_of current health) now cfg.min_hold_ms ≡ false
        → from_current d cfg current scores health now best (some cur)
          ≡ to_primary d cfg current scores health now best
    unfolding from_current
    keeps best cur held = ground arith

    to_primary_cases :
        (best : QosScore d)
        → (to_primary d cfg current scores health now best ≡ none)
          ⊎ (to_primary d cfg current scores health now best
              ≡ some (record {
                next_path_id = cfg.primary_path_id;
                reason = text "return_to_primary";
              }))
    unfolding to_primary to_scored_primary
    to_primary_cases best = ground arith

    -- Every decision leads to another path than the current one, which has a score and is not down.
    pub evaluate_safe :
        (decision : FailoverDecision)
        → evaluate d cfg current scores health now ≡ some decision
        → (decision.next_path_id ≢ current)
          × (is_down (state_of decision.next_path_id health) ≡ false)
          × ((s : QosScore d) × Mem s scores × (s.path_id ≡ decision.next_path_id))
    evaluate_safe decision e = subst SafeIf e evaluate-SafeIf

    -- If the current path is down, either there is no decision and all scored paths are down, or
    -- the decision is to switch, whatever the time, to the best of the scored paths that are not
    -- down.
    pub evaluate_down :
        is_down (state_of current health) ≡ true
        → ((evaluate d cfg current scores health now ≡ none) × AllDown d health scores)
          ⊎ ((best : QosScore d) × IsBest d health scores best
              × (evaluate d cfg current scores health now
                  ≡ some (record { next_path_id = best.path_id; reason = text "current_down" })))
    unfolding evaluate evaluate_best
    evaluate_down gone = of_best (best_of d health none scores) refl (all-Found d health scores)
      where
        of_best :
            (best : Option (QosScore d))
            → best_of d health none scores ≡ best
            → Found d health scores best
            → ((evaluate d cfg current scores health now ≡ none) × AllDown d health scores)
              ⊎ ((best : QosScore d) × IsBest d health scores best
                  × (evaluate d cfg current scores health now
                      ≡ some
                          (record { next_path_id = best.path_id; reason = text "current_down" })))
        of_best none e all_down = inl (rw (e, evaluate) refl, all_down)
        of_best (some b) e is_best = inr (b, is_best, rw (e, evaluate) (rw gone refl))

    -- While the current path is not down, has a score, and may not be left yet by its hold time, no
    -- score makes the policy switch: the only decision left is the return to the primary path.
    pub evaluate_holds :
        is_down (state_of current health) ≡ false
        → find_score d scores current ≢ none
        → allow_switch (last_change_of current health) now cfg.min_hold_ms ≡ false
        → (evaluate d cfg current scores health now ≡ none)
          ⊎ (evaluate d cfg current scores health now
              ≡ some (record {
                next_path_id = cfg.primary_path_id;
                reason = text "return_to_primary";
              }))
    unfolding evaluate evaluate_best
    evaluate_holds alive scored held =
        of_best (best_of d health none scores) refl (find_score d scores current) refl
      where
        to : QosScore d → Option FailoverDecision
        to best = to_primary d cfg current scores health now best

        of_best :
            (best : Option (QosScore d))
            → best_of d health none scores ≡ best
            → (cur : Option (QosScore d)) → find_score d scores current ≡ cur
            → (evaluate d cfg current scores health now ≡ none)
              ⊎ (evaluate d cfg current scores health now
                  ≡ some (record {
                    next_path_id = cfg.primary_path_id;
                    reason = text "return_to_primary";
                  }))
        of_best none e cur e' = inl (rw (e, evaluate) refl)
        of_best (some b) e none e' = absurd (scored e')
        of_best (some b) e (some cur) e' =
            let kept : evaluate d cfg current scores health now ≡ to b =
              rw (e, evaluate) (rw (alive, e') (keeps b cur held)) in
            elim (to_primary_cases b) [
              | inl none_to ↦ inl (kept ∙ none_to)
              | inr primary_to ↦ inr (kept ∙ primary_to)
            ]
