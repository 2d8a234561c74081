-- ===== src/Routing/FailoverPolicy/Decisions.antt =====
-- What `FailoverPolicy::evaluate` decides.
use alpha_smart_router.Base.{
  ◌≡◌, inl, inr, subst, Bool, true, false, Option, none, some, List, [], ◌∷◌, ◌++◌, Bool-cases,
  Text,
}
use mathlib.Core.Logic.Or
use mathlib.Core.Bool.{Bool-set}
use mathlib.Core.List.{
  Mem, mem-cons, mem-cons_self, mem-cons_of_mem, not-mem-nil, Perm, perm_middle, append-nil,
}
use mathlib.Core.List.Perm
use alpha_smart_router.Routing.Doubles.{Doubles, Ordered}
use alpha_smart_router.Routing.QosPolicy.{QosScore}
use alpha_smart_router.Routing.FailoverPolicy.{PathHealth, is_down, state_of, improve, best_of}

module _ (d : Doubles) (health : List PathHealth) where
  abbrev dead : Text → Bool
  dead id = is_down (state_of id health)

  -- `best` is a score of a path that is not down, and no such score is higher, where the comparison
  -- is that of no NaN.
  pub record IsBest (scores : List (QosScore d)) (best : QosScore d) : Type 0 where
    pub among : Mem best scores
    pub alive : is_down (state_of best.path_id health) ≡ false
    pub unbeaten :
        Ordered d
        → (s : QosScore d) → Mem s scores
        → is_down (state_of s.path_id health) ≡ false
        → d.gt s.score best.score ≡ false

  abbrev pub AllDown : List (QosScore d) → Type 0
  AllDown scores = (s : QosScore d) → Mem s scores → is_down (state_of s.path_id health) ≡ true

  -- The loop after `scores`.
  abbrev pub Found : List (QosScore d) → Option (QosScore d) → Type 0
  Found scores none = AllDown scores
  Found scores (some best) = IsBest scores best

  gt_asym : Ordered d → (a b : d.Double) → d.gt a b ≡ true → d.gt b a ≡ false
  gt_asym o a b p = elim (Bool-cases (d.gt b a)) [
    | inl back ↦ absurd (cc (o.gt_trans a b a p back, o.gt_irrefl a))
    | inr done ↦ done
  ]

  IsBest-cons :
      (s b : QosScore d) (scores : List (QosScore d))
      → (Ordered d → dead s.path_id ≡ false → d.gt s.score b.score ≡ false)
      → IsBest scores b
      → IsBest (s ∷ scores) b
  IsBest-cons s b scores beaten best = record {
    among = mem-cons_of_mem s best.among;
    alive = best.alive;
    unbeaten = λ o t m alive.
        Or.elim (Bool-set _ _) (mem-cons.0 m) (λ e. rw e (beaten o (rw e at alive)))
          (λ later. best.unbeaten o t later alive);
  }

  IsBest-new :
      (s : QosScore d) (scores : List (QosScore d))
      → dead s.path_id ≡ false
      → (Ordered d
          → (t : QosScore d) → Mem t scores
          → dead t.path_id ≡ false
          → d.gt t.score s.score ≡ false)
      → IsBest (s ∷ scores) s
  IsBest-new s scores alive rest = record {
    among = mem-cons_self;
    alive = alive;
    unbeaten = λ o t m living.
        Or.elim (Bool-set _ _) (mem-cons.0 m) (λ e. rw e (o.gt_irrefl _))
          (λ later. rest o t later living);
  }

  Found-step :
      (s : QosScore d) (scores : List (QosScore d)) (best : Option (QosScore d))
      → Found scores best
      → Found (s ∷ scores) (improve d health best s)
  unfolding improve
  Found-step s scores none all_down = elim (Bool-cases (dead s.path_id)) [
    | inl gone ↦
        rw (gone, improve)
          (λ t m. Or.elim (Bool-set _ _) (mem-cons.0 m) (λ e. rw e gone) (all_down t))
    | inr alive ↦
        rw (alive, improve)
          (IsBest-new s scores alive (λ o t m living. absurd (cc (all_down t m, living))))
  ]
  Found-step s scores (some b) best = elim (Bool-cases (dead s.path_id)) [
    | inl gone ↦
        rw (gone, improve) (IsBest-cons s b scores (λ o alive. absurd (cc (gone, alive))) best)
    | inr alive ↦ elim (Bool-cases (d.gt s.score b.score)) [
      | inl higher ↦
          rw (alive, higher, improve)
            (IsBest-new s scores alive (λ o t m living.
              o.gt_neg_trans _ _ _ (best.unbeaten o t m living) (gt_asym o _ _ higher)))
      | inr lower ↦ rw (alive, lower, improve) (IsBest-cons s b scores (λ o living. lower) best)
    ]
  ]

  Found-perm :
      {scores others : List (QosScore d)} (best : Option (QosScore d))
      → Perm scores others
      → Found scores best
      → Found others best
  Found-perm none p all_down = λ s m. all_down s ((Perm.mem_iff p).1 m)
  Found-perm (some b) p best = record {
    among = (Perm.mem_iff p).0 best.among;
    alive = best.alive;
    unbeaten = λ o s m. best.unbeaten o s ((Perm.mem_iff p).1 m);
  }

  best_of-Found :
      (scores seen : List (QosScore d)) (best : Option (QosScore d))
      → Found seen best
      → Found (scores ++ seen) (best_of d health best scores)
  unfolding best_of
  best_of-Found [] seen best before = before
  best_of-Found (s ∷ scores) seen best before =
      Found-perm _ (perm_middle scores seen)
        (best_of-Found scores (s ∷ seen) (improve d health best s) (Found-step s seen best before))

  pub all-Found : (scores : List (QosScore d)) → Found scores (best_of d health none scores)
  all-Found scores =
      subst (λ l. Found l (best_of d health none scores)) (append-nil scores)
        (best_of-Found scores [] none (λ s m. absurd (not-mem-nil m)))
