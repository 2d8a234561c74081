-- ===== src/Routing/QosPolicy/Best.antt =====
-- What `QoSPolicy::choose_best` chooses.
use alpha_smart_router.Base.{
  ◌≡◌, ◌⊎◌, inl, inr, refl, Bool, true, false, ◌&&◌, not, Option, none, some, List, [], ◌∷◌, ◌++◌,
  if◌then◌else◌, Bool-cases, subst,
}
use mathlib.Core.Logic.Or
use mathlib.Core.Bool.{Bool-set}
use mathlib.Core.List.{
  Mem, mem-cons, mem-cons_self, mem-cons_of_mem, not-mem-nil, Perm, perm_middle, append-nil,
}
use mathlib.Core.List.Perm
use alpha_smart_router.Routing.Doubles.{Doubles, Ordered}
use alpha_smart_router.Routing.QosPolicy.{
  QosClass, PathMetrics, QosScore, QosConfig, score_path, better, pick, choose_best,
}

module _ (d : Doubles) (o : Ordered d) (cfg : QosConfig d) (clazz : QosClass) where
  abbrev score : PathMetrics d → QosScore d
  score pm = score_path d cfg pm clazz

  -- Whether a candidate counts.
  abbrev pub counts : (strict : Bool) → PathMetrics d → Bool
  counts strict pm = not (strict && not (score_path d cfg pm clazz).within_thresholds)

  -- `best` is the score of a candidate that counts, and none that counts scores higher.
  pub record IsBest (strict : Bool) (pms : List (PathMetrics d)) (best : QosScore d) : Type 0 where
    pub path : PathMetrics d
    pub among : Mem path pms
    pub counted : counts strict path ≡ true
    pub scored : score_path d cfg path clazz ≡ best
    pub unbeaten :
        (pm : PathMetrics d)
        → Mem pm pms
        → counts strict pm ≡ true
        → d.gt (score_path d cfg pm clazz).score best.score ≡ false

  -- None of the candidates counts.
  abbrev pub NoneCounts : (strict : Bool) → List (PathMetrics d) → Type 0
  NoneCounts strict pms = (pm : PathMetrics d) → Mem pm pms → counts strict pm ≡ false

  -- The loop after the candidates `pms`.
  abbrev Picked : (strict : Bool) → List (PathMetrics d) → Option (QosScore d) → Type 0
  Picked strict pms none = NoneCounts strict pms
  Picked strict pms (some best) = IsBest strict pms best

  Picked-skip :
      (strict : Bool) (pm : PathMetrics d) (pms : List (PathMetrics d)) (best : Option (QosScore d))
      → counts strict pm ≡ false
      → Picked strict pms best
      → Picked strict (pm ∷ pms) best
  Picked-skip strict pm pms none out before =
      λ p m. Or.elim (Bool-set _ _) (mem-cons.0 m) (λ e. rw e out) (before p)
  Picked-skip strict pm pms (some best) out before = record {
    path = before.path;
    among = mem-cons_of_mem pm before.among;
    counted = before.counted;
    scored = before.scored;
    unbeaten = λ p m c.
        Or.elim (Bool-set _ _) (mem-cons.0 m) (λ e. absurd (cc (e, out, c)))
          (λ later. before.unbeaten p later c);
  }

  gt_asym : (a b : d.Double) → d.gt a b ≡ true → d.gt b a ≡ false
  gt_asym a b p = elim (Bool-cases (d.gt b a)) [
    | inl back ↦ absurd (cc (o.gt_trans a b a p back, o.gt_irrefl a))
    | inr done ↦ done
  ]

  Picked-take :
      (strict : Bool) (pm : PathMetrics d) (pms : List (PathMetrics d)) (best : Option (QosScore d))
      → counts strict pm ≡ true
      → Picked strict pms best
      → Picked strict (pm ∷ pms) (better d best (score pm))
  unfolding better
  Picked-take strict pm pms none counted before = record {
    path = pm;
    among = mem-cons_self;
    counted = counted;
    scored = refl;
    unbeaten = λ p m c.
        Or.elim (Bool-set _ _) (mem-cons.0 m) (λ e. rw e (o.gt_irrefl _))
          (λ later. absurd (cc (before p later, c)));
  }
  Picked-take strict pm pms (some best) counted before =
      elim (Bool-cases (d.gt (score pm).score best.score)) [
        | inl higher ↦
            rw (higher, better)
              record {
                path = pm;
                among = mem-cons_self;
                counted = counted;
                scored = refl;
                unbeaten = λ p m c.
                    Or.elim (Bool-set _ _) (mem-cons.0 m) (λ e. rw e (o.gt_irrefl _))
                      (λ later.
                        o.gt_neg_trans _ _ _ (before.unbeaten p later c) (gt_asym _ _ higher));
              }
        | inr lower ↦
            rw (lower, better)
              record {
                path = before.path;
                among = mem-cons_of_mem pm before.among;
                counted = before.counted;
                scored = before.scored;
                unbeaten = λ p m c.
                    Or.elim (Bool-set _ _) (mem-cons.0 m) (λ e. rw e lower)
                      (λ later. before.unbeaten p later c);
              }
      ]

  Picked-step :
      (strict : Bool) (pm : PathMetrics d) (pms : List (PathMetrics d)) (best : Option (QosScore d))
      → Picked strict pms best
      → Picked strict
          (pm ∷ pms)
          (if strict && not (score pm).within_thresholds then best else better d best (score pm))
  Picked-step strict pm pms best before =
      elim (Bool-cases (strict && not (score pm).within_thresholds)) [
        | inl skipped ↦ rw skipped (Picked-skip strict pm pms best (rw skipped refl) before)
        | inr counted ↦ rw counted (Picked-take strict pm pms best (rw counted refl) before)
      ]

  Picked-perm :
      (strict : Bool) {pms qms : List (PathMetrics d)} (best : Option (QosScore d))
      → Perm pms qms
      → Picked strict pms best
      → Picked strict qms best
  Picked-perm strict none p before = λ pm m. before pm ((Perm.mem_iff p).1 m)
  Picked-perm strict (some best) p before = record {
    path = before.path;
    among = (Perm.mem_iff p).0 before.among;
    counted = before.counted;
    scored = before.scored;
    unbeaten = λ pm m. before.unbeaten pm ((Perm.mem_iff p).1 m);
  }

  pick-Picked :
      (pms seen : List (PathMetrics d)) (strict : Bool) (best : Option (QosScore d))
      → Picked strict seen best
      → Picked strict (pms ++ seen) (pick d cfg clazz strict best pms)
  unfolding pick
  pick-Picked [] seen strict best before = before
  pick-Picked (pm ∷ pms) seen strict best before = Picked-perm strict _ (perm_middle pms seen) (
      pick-Picked pms (pm ∷ seen) strict
        (if strict && not (score pm).within_thresholds then best else better d best (score pm))
        (Picked-step strict pm seen best before))

  all-Picked :
      (pms : List (PathMetrics d)) (strict : Bool)
      → Picked strict pms (pick d cfg clazz strict none pms)
  all-Picked pms strict =
      subst (λ l. Picked strict l (pick d cfg clazz strict none pms)) (append-nil pms)
        (pick-Picked pms [] strict none (λ pm m. absurd (not-mem-nil m)))

  none_left : (pms : List (PathMetrics d)) → NoneCounts false pms → pms ≡ []
  none_left [] out = refl
  none_left (pm ∷ pms) out = absurd (cc (out pm mem-cons_self))

  -- Where the comparison is that of no NaN: `choose_best` finds nothing exactly if there are no
  -- candidates. Else it returns the highest score of a candidate, among those that comply with the
  -- thresholds if that is required and one does, and among all otherwise.
  pub choose_best_lem :
      (pms : List (PathMetrics d)) (strict : Bool)
      → ((pms ≡ []) × (choose_best d cfg pms clazz strict ≡ none))
        ⊎ ((best : QosScore d) × (choose_best d cfg pms clazz strict ≡ some best)
            × (IsBest strict pms best ⊎ (NoneCounts strict pms × IsBest false pms best)))
  unfolding choose_best
  choose_best_lem pms strict =
      of_first strict (pick d cfg clazz strict none pms) refl (all-Picked pms strict)
        (pick d cfg clazz false none pms) refl (all-Picked pms false)
    where
      of_first :
          (strict : Bool) (best : Option (QosScore d))
          → pick d cfg clazz strict none pms ≡ best
          → Picked strict pms best
          → (overall : Option (QosScore d)) → pick d cfg clazz false none pms ≡ overall
          → Picked false pms overall
          → ((pms ≡ []) × (choose_best d cfg pms clazz strict ≡ none))
            ⊎ ((best : QosScore d) × (choose_best d cfg pms clazz strict ≡ some best)
                × (IsBest strict pms best ⊎ (NoneCounts strict pms × IsBest false pms best)))
      of_first strict (some best) e found overall e' all =
          inr (best, rw (e, choose_best) refl, inl found)
      of_first true none e out (some best) e' found =
          inr (best, rw (e, choose_best) (rw e' refl), inr (out, found))
      of_first true none e out none e' nothing =
          inl (none_left pms nothing, rw (e, choose_best) (rw e' refl))
      of_first false none e out overall e' all = inl (none_left pms out, rw (e, choose_best) refl)
