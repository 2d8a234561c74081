-- ===== src/Routing/BgpOracle/Best.antt =====
-- The simulator's choice among the routes of a service.
use alpha_smart_router.Base.{
  ◌≤◌, ◌≡◌, ◌⊎◌, inl, inr, ap, true, false, none, some, List, [], ◌∷◌, ltb, if◌then◌else◌, Text,
  text_lt, text_lt_trans, text_lt_irrefl, text_lt_total, text_lt_neg_trans, Option-cases, find,
  text_key, arith, Bool-cases,
}
use mathlib.Core.Logic.Or
use mathlib.Core.List.{Mem, Perm, mem-cons, mem-cons_self, mem-cons_of_mem, not-mem-nil, Mem-prop}
use mathlib.Core.Bool.{Bool-set}
use mathlib.Core.List.Perm
use alpha_smart_router.Routing.BgpOracle.{SimRoute, SimRouteMap, replaces, choose, serving_pop}

-- The attributes after the local preference, as one text.
abbrev rank : SimRoute → Text
rank r = r.as_path_len ∷ r.med ∷ r.igp_cost ∷ r.pop_id

replaces_rank :
    (r s : SimRoute)
    → replaces r s ≡ (
        if ltb s.local_pref r.local_pref
        then true
        else if ltb r.local_pref s.local_pref
        then false
        else text_lt (rank r) (rank s))
unfolding replaces text_lt
replaces_rank r s = ground arith

replaces_trans :
    (r s t : SimRoute) → replaces r s ≡ true → replaces s t ≡ true → replaces r t ≡ true
replaces_trans r s t p q = ground (
  arith,
  replaces_rank r s,
  replaces_rank s t,
  replaces_rank r t,
  text_lt_trans (rank r) (rank s) (rank t),
)

replaces_neg_trans :
    (r s t : SimRoute) → replaces r s ≡ false → replaces s t ≡ false → replaces r t ≡ false
replaces_neg_trans r s t p q = ground (
  arith,
  replaces_rank r s,
  replaces_rank s t,
  replaces_rank r t,
  text_lt_neg_trans (rank r) (rank s) (rank t),
)

replaces_irrefl : (r : SimRoute) → replaces r r ≡ false
replaces_irrefl r = ground (arith, replaces_rank r r, text_lt_irrefl (rank r))

-- What beats is not beaten.
replaces_asym : (r s : SimRoute) → replaces r s ≡ true → replaces s r ≡ false
replaces_asym r s p = elim (Bool-cases (replaces s r)) [
  | inl back ↦ absurd (cc (replaces_trans r s r p back, replaces_irrefl r))
  | inr done ↦ done
]

replaces_total :
    (r s : SimRoute) → replaces r s ≡ false → replaces s r ≡ false → r.pop_id ≡ s.pop_id
replaces_total r s p q =
    ground (arith, replaces_rank r s, replaces_rank s r, text_lt_total (rank r) (rank s))

-- `b` is one of the routes, and none of them takes its place.
record Unbeaten (b : SimRoute) (rs : List SimRoute) : Type 0 where
  pub there : Mem b rs
  pub unbeaten : (r : SimRoute) → Mem r rs → replaces r b ≡ false

-- A best route stays one when a route is added that does not beat one of those it is best of.
Unbeaten-cons :
    {c : SimRoute} (x b : SimRoute) (rs : List SimRoute)
    → Mem x rs
    → replaces b x ≡ false
    → Unbeaten c rs
    → Unbeaten c (b ∷ rs)
Unbeaten-cons {c} x b rs among beaten best = record {
  there = mem-cons_of_mem b best.there;
  unbeaten = λ r m.
      Or.elim (Bool-set _ _) (mem-cons.0 m)
        (λ e. rw e (replaces_neg_trans b x c beaten (best.unbeaten x among))) (best.unbeaten r);
}

Unbeaten-swap :
    {c : SimRoute} (x y : SimRoute) (rs : List SimRoute)
    → Unbeaten c (x ∷ y ∷ rs)
    → Unbeaten c (y ∷ x ∷ rs)
Unbeaten-swap x y rs best = record {
  there = (Perm.mem_iff (Perm.swap y x rs)).0 best.there;
  unbeaten = λ r m. best.unbeaten r ((Perm.mem_iff (Perm.swap x y rs)).0 m);
}

-- The loop ends with the best of what it started with and what it saw.
choose-Unbeaten : (b : SimRoute) (rs : List SimRoute) → Unbeaten (choose b rs) (b ∷ rs)
unfolding choose
choose-Unbeaten b [] = record {
  there = mem-cons_self;
  unbeaten = λ r m.
      Or.elim (Bool-set _ _) (mem-cons.0 m) (λ e. rw e (replaces_irrefl b))
        (λ none_left. absurd (not-mem-nil none_left));
}
choose-Unbeaten b (r ∷ rs) =
    let if_better = choose-Unbeaten r rs in
    let if_worse = choose-Unbeaten b rs in
    elim (Bool-cases (replaces r b)) [
      | inl better ↦
          rw better (Unbeaten-cons r b (r ∷ rs) mem-cons_self (replaces_asym r b better) if_better)
      | inr worse ↦
          rw worse (Unbeaten-swap r b rs (Unbeaten-cons b r (b ∷ rs) mem-cons_self worse if_worse))
    ]

-- Two best routes of the same routes have the same PoP.
best_unique :
    {b c : SimRoute} {rs : List SimRoute} → Unbeaten b rs → Unbeaten c rs → b.pop_id ≡ c.pop_id
best_unique {b} {c} p q = replaces_total b c (q.unbeaten b p.there) (p.unbeaten c q.there)

-- `Unbeaten` does not depend on the order of the routes.
Unbeaten-perm : {b : SimRoute} {rs ss : List SimRoute} → Perm rs ss → Unbeaten b rs → Unbeaten b ss
Unbeaten-perm p best = record {
  there = (Perm.mem_iff p).0 best.there;
  unbeaten = λ r m. best.unbeaten r ((Perm.mem_iff (Perm.symm p)).0 m);
}

Unbeaten-repeat :
    {c : SimRoute} (x : SimRoute) (rs : List SimRoute)
    → Unbeaten c (x ∷ x ∷ rs)
    → Unbeaten c (x ∷ rs)
Unbeaten-repeat {c} x rs best = record {
  there = Or.elim Mem-prop (mem-cons.0 best.there) (λ e. rw e mem-cons_self) (λ m. m);
  unbeaten = λ r m. best.unbeaten r (mem-cons_of_mem x m);
}

-- A route `r` does not go before `b`: not by the local preference, of which the higher is better,
-- nor, those being equal, by the length of the AS path, then by the MED, then by the IGP cost, of
-- which the lower is better, nor, all being equal, by the name of its PoP.
pub record NotBetter (r b : SimRoute) : Type 0 where
  pub local_pref : r.local_pref ≤ b.local_pref
  pub as_path_len : r.local_pref ≡ b.local_pref → b.as_path_len ≤ r.as_path_len
  pub med : r.local_pref ≡ b.local_pref → r.as_path_len ≡ b.as_path_len → b.med ≤ r.med
  pub igp_cost :
      r.local_pref ≡ b.local_pref
      → r.as_path_len ≡ b.as_path_len
      → r.med ≡ b.med
      → b.igp_cost ≤ r.igp_cost
  pub pop_id :
      r.local_pref ≡ b.local_pref
      → r.as_path_len ≡ b.as_path_len
      → r.med ≡ b.med
      → r.igp_cost ≡ b.igp_cost
      → text_lt r.pop_id b.pop_id ≡ false

replaces-NotBetter : (r b : SimRoute) → replaces r b ≡ false → NotBetter r b
unfolding replaces
replaces-NotBetter r b e = record {
  local_pref = ground arith;
  as_path_len = λ a. ground arith;
  med = λ a c. ground arith;
  igp_cost = λ a c f. ground arith;
  pop_id = λ a c f g. ground arith;
}

-- `b` is one of the routes, and none of them goes before it.
pub record IsBest (b : SimRoute) (rs : List SimRoute) : Type 0 where
  pub there : Mem b rs
  pub first : (r : SimRoute) → Mem r rs → NotBetter r b

Unbeaten-IsBest : {b : SimRoute} {rs : List SimRoute} → Unbeaten b rs → IsBest b rs
Unbeaten-IsBest {b} best = record {
  there = best.there;
  first = λ r m. replaces-NotBetter r b (best.unbeaten r m);
}

-- The simulator serves a service from the PoP of a best route: highest local preference, then
-- shortest AS path, then lowest MED, then lowest IGP cost, then the PoP that comes first. It serves
-- none exactly when the table has no route for the service.
pub serving_pop_lem :
    (routes : SimRouteMap) (service client : Text)
    → ((serving_pop routes service client ≡ none)
        × ((find service routes ≡ none) ⊎ (find service routes ≡ some [])))
      ⊎ ((rs : List SimRoute) × (b : SimRoute) × (find service routes ≡ some rs)
          × IsBest b rs
          × (serving_pop routes service client ≡ some b.pop_id))
unfolding serving_pop
serving_pop_lem routes service client = elim (Option-cases (find service routes)) [
  | inl missing ↦ inl (rw (missing, serving_pop), inl missing)
  | inr (rs, there) ↦ of_routes rs there
]
  where
    of_routes :
        (rs : List SimRoute)
        → find service routes ≡ some rs
        → ((serving_pop routes service client ≡ none)
            × ((find service routes ≡ none) ⊎ (find service routes ≡ some [])))
          ⊎ ((rs : List SimRoute) × (b : SimRoute) × (find service routes ≡ some rs)
              × IsBest b rs
              × (serving_pop routes service client ≡ some b.pop_id))
    of_routes [] there = inl (rw (there, serving_pop), inr there)
    of_routes (r ∷ rs) there = inr (
      r ∷ rs,
      choose r (r ∷ rs),
      there,
      Unbeaten-IsBest (Unbeaten-repeat r rs (choose-Unbeaten r (r ∷ rs))),
      rw (there, serving_pop),
    )

-- Two tables that list the same routes for a service, in any order, serve it from the same PoP,
-- whatever the clients.
pub serving_pop_order :
    (routes routes' : SimRouteMap) (service client client' : Text) (rs ss : List SimRoute)
    → find service routes ≡ some rs
    → find service routes' ≡ some ss
    → Perm rs ss
    → serving_pop routes service client ≡ serving_pop routes' service client'
unfolding serving_pop
serving_pop_order routes routes' service client client' [] [] p q same = rw (p, q, serving_pop)
serving_pop_order routes routes' service client client' [] (s ∷ ss) p q same = cc (Perm.nil-eq same)
serving_pop_order routes routes' service client client' (r ∷ rs) [] p q same = cc (Perm.eq-nil same)
serving_pop_order routes routes' service client client' (r ∷ rs) (s ∷ ss) p q same =
    rw (p, q, serving_pop)
      (ap some (
        best_unique (Unbeaten-perm same (Unbeaten-repeat r rs (choose-Unbeaten r (r ∷ rs))))
          (Unbeaten-repeat s ss (choose-Unbeaten s (s ∷ ss)))))
