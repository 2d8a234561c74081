-- ===== src/Routing/PathSelection/Latency.antt =====
-- How the choice of the latency-aware policy ends.
use alpha_smart_router.Base.{
  ℕ, zero, suc, ◌+◌, ◌%◌, ◌^◌, ◌≤◌, ◌<◌, ◌≡◌, ◌⊎◌, inl, inr, refl, ◌∙◌, ap, Bool, true, false,
  Option, none, some, List, [], ◌∷◌, arith, ◌==◌, if◌then◌else◌, length, get_elem?, lt-get_elem?,
  Bool-cases, ◌&&◌, not,
}
use native.Mathlib.Nat.{mod-eq_of_lt, mod-lt}
use alpha_smart_router.Routing.PathSelection.{
  PathMetrics, CandidateRef, PacketContext, u32_mod, count, is_healthy, id_at,
}
use alpha_smart_router.Routing.PathSelection.LatencyAwarePolicy.{
  LatencyAwareConfig, Best, scan_best, scan_min, explore, explored, finish, choose,
}
use alpha_smart_router.Routing.PathSelection.Cyclic.{id_at_lem}
use alpha_smart_router.Routing.PathSelection.Fastest.{
  HealthyAt, NoneWell, NearTo, slack, Seen, scan_best-Seen, healthy_of,
}
use alpha_smart_router.Routing.PathSelection.Fallback.{
  ReadAt, NoneRead, ClosestTo, SeenMin, scan_min-SeenMin,
}

module _ (cands : List CandidateRef) (some_cands : 0 < length cands)
    (small : length cands ≤ 2 ^ 31) where
  counted : count cands ≡ length cands
  counted = mod-eq_of_lt (omega (arith, small))

  -- The id of a healthy candidate.
  abbrev Well : Option ℕ → Type 0
  Well out =
      (k : ℕ) × (c : CandidateRef) × (get_elem? cands k ≡ some c)
      × (out ≡ some c.id)
      × (is_healthy c ≡ true)

  explore-Well :
      (best start rounds i : ℕ)
      → (explore cands best (length cands) start rounds i ≡ some none)
        ⊎ ((out : Option ℕ) × (explore cands best (length cands) start rounds i ≡ some out)
            × Well out)
  unfolding explore
  explore-Well best start zero i = inl refl
  explore-Well best start (suc rounds) i =
      let k = (start + i) % u32_mod % length cands in
      let (c, there) = lt-get_elem? cands k (mod-lt _ some_cands) in
      elim (Bool-cases (not (k == best) && is_healthy c)) [
        | inl other ↦
            inr (some c.id, rw (there, other, explore) refl, (k, c, there, refl, ground arith))
        | inr skipped ↦ rw (there, skipped, explore) (explore-Well best start rounds (suc i))
      ]

  best-Well : (b : ℕ) (m : PathMetrics) → HealthyAt cands b m → Well (id_at cands b)
  best-Well b m at = (
    b,
    at.candidate,
    at.there,
    id_at_lem cands b at.there,
    healthy_of at.candidate at.loads ∙ at.well,
  )

  -- Either way a healthy candidate.
  if-Well :
      (test : Bool) (x y : Option ℕ × ℕ) → Well x.0 → Well y.0 → Well (if test then x else y).0
  if-Well true x y wx wy = wx
  if-Well false x y wx wy = wy

  explored-Well :
      (b salt start : ℕ) (m : PathMetrics)
      → HealthyAt cands b m
      → Well (explored cands b salt (explore cands b (length cands) start (length cands) 0)).0
  unfolding explored
  explored-Well b salt start m at = elim (explore-Well b start (length cands) 0) [
    | inl ends ↦ rw (ends, explored) (best-Well b m at)
    | inr (out, finds, well) ↦ of_out out finds well
  ]
    where
      of_out :
          (out : Option ℕ)
          → explore cands b (length cands) start (length cands) 0 ≡ some out
          → Well out
          → Well (explored cands b salt (explore cands b (length cands) start (length cands) 0)).0
      of_out none finds (k, c, there, e, well) = absurd (cc (e))
      of_out (some id) finds well = rw (finds, explored) well

  finish-Well :
      (cfg : LatencyAwareConfig) (salt : ℕ) (pkt : PacketContext) (b : ℕ) (m : PathMetrics)
      → HealthyAt cands b m
      → Well (finish cfg salt cands pkt b).0
  unfolding finish
  finish-Well cfg salt pkt b m at =
      rw counted (if-Well _ _ _ (explored-Well b salt _ m at) (best-Well b m at))

-- How `choose` ends on candidates that are there.
abbrev pub Ends : LatencyAwareConfig → ℕ → List CandidateRef → PacketContext → Type 0
Ends cfg salt cands pkt =
    ((b : ℕ) × (m : PathMetrics) × HealthyAt cands b m
      × NearTo cands (slack cfg (length cands)) (length cands) m
      × (choose cfg salt cands pkt ≡ finish cfg salt cands pkt b))
    ⊎ (NoneWell cands (length cands)
        × (((b : ℕ) × (m : PathMetrics) × ReadAt cands b m
              × ClosestTo cands (length cands) m
              × (choose cfg salt cands pkt ≡ (id_at cands b, salt)))
            ⊎ (NoneRead cands (length cands)
                × (choose cfg salt cands pkt ≡ (id_at cands 0, salt)))))

pub choose-Ends :
    (cfg : LatencyAwareConfig) (salt : ℕ) (cands : List CandidateRef) (pkt : PacketContext)
    → 0 < length cands
    → Ends cfg salt cands pkt
unfolding choose
choose-Ends cfg salt [] pkt lt = absurd (omega arith)
choose-Ends cfg salt (c ∷ cs) pkt lt = of_best (scan_best cfg pkt none 0 (c ∷ cs)) refl (
    scan_best-Seen (c ∷ cs) (c ∷ cs) cfg pkt none 0 (λ j. ap (get_elem? (c ∷ cs)) (omega arith))
      (omega arith) (λ j d less there. absurd (omega arith)))
  where
    of_min :
        (best : Best)
        → scan_best cfg pkt none 0 (c ∷ cs) ≡ none
        → scan_min none 0 (c ∷ cs) ≡ best
        → NoneWell (c ∷ cs) (length (c ∷ cs))
        → SeenMin (c ∷ cs) (length (c ∷ cs)) best
        → Ends cfg salt (c ∷ cs) pkt
    of_min none none_well e ill seen = inr (ill, inr (seen, rw (none_well, choose) (rw e refl)))
    of_min (some (b, m)) none_well e ill (at, closest) =
        inr (ill, inl (b, m, at, closest, rw (none_well, choose) (rw e refl)))

    of_best :
        (best : Best)
        → scan_best cfg pkt none 0 (c ∷ cs) ≡ best
        → Seen (c ∷ cs) cfg (length (c ∷ cs)) best
        → Ends cfg salt (c ∷ cs) pkt
    of_best (some (b, m)) e (at, fastest) = inl (b, m, at, fastest, rw (e, choose) refl)
    of_best none e ill = of_min (scan_min none 0 (c ∷ cs)) e refl ill (
        scan_min-SeenMin (c ∷ cs) (c ∷ cs) none 0 (λ j. ap (get_elem? (c ∷ cs)) (omega arith))
          (omega arith) (λ j n less read. absurd (omega arith)))

-- Of one to 2^31 candidates, whatever the configuration, the salt and the packet, the latency-aware
-- policy chooses the id of one of them, which is healthy unless none is.
pub latency_lem :
    (cfg : LatencyAwareConfig) (salt : ℕ) (cands : List CandidateRef) (pkt : PacketContext)
    → 0 < length cands
    → length cands ≤ 2 ^ 31
    → (k : ℕ) × (c : CandidateRef) × (get_elem? cands k ≡ some c)
      × ((choose cfg salt cands pkt).0 ≡ some c.id)
      × ((is_healthy c ≡ true) ⊎ NoneWell cands (length cands))
latency_lem cfg salt cands pkt lt small = elim (choose-Ends cfg salt cands pkt lt) [
  | inl (b, m, at, fastest, e) ↦
      let (k, c, there, out, well) = finish-Well cands lt small cfg salt pkt b m at in
      (k, c, there, ap (λ (r : Option ℕ × ℕ). r.0) e ∙ out, inl well)
  | inr (ill, inl (b, m, at, closest, e)) ↦ (
    b,
    at.candidate,
    at.there,
    ap (λ (r : Option ℕ × ℕ). r.0) e ∙ id_at_lem cands b at.there,
    inr ill,
  )
  | inr (ill, inr (unread, e)) ↦
      let (c, there) = lt-get_elem? cands 0 lt in
      (0, c, there, ap (λ (r : Option ℕ × ℕ). r.0) e ∙ id_at_lem cands 0 there, inr ill)
]
