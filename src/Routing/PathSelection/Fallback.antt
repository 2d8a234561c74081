-- ===== src/Routing/PathSelection/Fallback.antt =====
-- What the latency-aware policy falls back on when no candidate is healthy.
use alpha_smart_router.Base.{
  ℕ, suc, ◌+◌, ◌≤◌, ◌<◌, ◌≡◌, ◌∙◌, sym, ap, none, some, List, [], ◌∷◌, arith, inl, inr, length,
  get_elem?, Bool-cases, Option-cases, ℕ_discrete, ltb, ltb→lt, subst,
}
use alpha_smart_router.Routing.PathSelection.{PathMetrics, CandidateRef, load_metrics}
use alpha_smart_router.Routing.PathSelection.LatencyAwarePolicy.{Best, closer, scan_min}

module _ (cands : List CandidateRef) where
  -- A load of the candidate at `k` finds `m`.
  pub record ReadAt (k : ℕ) (m : PathMetrics) : Type 0 where
    pub candidate : CandidateRef
    pub there : get_elem? cands k ≡ some candidate
    pub loads : load_metrics candidate.slot ≡ some m

  abbrev pub NoneRead : ℕ → Type 0
  NoneRead i = (j : ℕ) (n : PathMetrics) → j < i → ¬ ReadAt j n

  abbrev pub ClosestTo : ℕ → PathMetrics → Type 0
  ClosestTo i m = (j : ℕ) (n : PathMetrics) → j < i → ReadAt j n → m.rtt_us ≤ n.rtt_us

  -- The loop before the candidate at `i`.
  abbrev pub SeenMin : ℕ → Best → Type 0
  SeenMin i none = NoneRead i
  SeenMin i (some (b, m)) = ReadAt b m × ClosestTo i m

  unread :
      (i : ℕ) (c : CandidateRef) {n : PathMetrics}
      → get_elem? cands i ≡ some c
      → load_metrics c.slot ≡ none
      → ¬ ReadAt i n
  unread i c here fails h =
      let same : c ≡ h.candidate = cc (here, h.there) in cc (h.loads, fails, same)

  SeenMin-unread :
      (i : ℕ) (best : Best) (c : CandidateRef)
      → get_elem? cands i ≡ some c
      → load_metrics c.slot ≡ none
      → SeenMin i best
      → SeenMin (suc i) best
  SeenMin-unread i none c here fails before = λ j n lt h. elim (ℕ_discrete j i) [
    | yes same ↦ unread i c here fails (subst (λ (t : ℕ). ReadAt t n) same h)
    | no differ ↦ before j n (omega arith) h
  ]
  SeenMin-unread i (some (b, m)) c here fails (at, closest) = (
    at,
    λ j n lt h. elim (ℕ_discrete j i) [
      | yes same ↦ absurd (unread i c here fails (subst (λ (t : ℕ). ReadAt t n) same h))
      | no differ ↦ closest j n (omega arith) h
    ],
  )

  ClosestTo-suc :
      (i : ℕ) (m m' : PathMetrics)
      → ReadAt i m'
      → m.rtt_us ≤ m'.rtt_us
      → ClosestTo i m
      → ClosestTo (suc i) m
  ClosestTo-suc i m m' here le before j n lt h = elim (ℕ_discrete j i) [
    | yes same ↦
        let h' = subst (λ (t : ℕ). ReadAt t n) same h in
        let one : h'.candidate ≡ here.candidate = cc (h'.there, here.there) in
        let equal : n ≡ m' = cc (h'.loads, here.loads, one) in
        omega (arith, ap (λ (p : PathMetrics). p.rtt_us) equal)
    | no differ ↦ before j n (omega arith) h
  ]

  SeenMin-read :
      (i : ℕ) (best : Best) (m : PathMetrics)
      → ReadAt i m
      → SeenMin i best
      → SeenMin (suc i) (closer best i m)
  unfolding closer
  SeenMin-read i none m here before =
      (here, ClosestTo-suc i m m here (omega arith) (λ j n lt h. absurd (before j n lt h)))
  SeenMin-read i (some (b, bm)) m here (at, closest) = elim (Bool-cases (ltb m.rtt_us bm.rtt_us)) [
    | inl faster ↦
        rw (faster, closer)
          (
            here,
            ClosestTo-suc i m m here (omega arith)
                (λ j n lt h. omega (arith, closest j n lt h, ltb→lt _ _ faster)),
          )
    | inr slower ↦ rw (slower, closer) (at, ClosestTo-suc i bm m here (ground arith) closest)
  ]

  pub scan_min-SeenMin :
      (cs : List CandidateRef) (best : Best) (i : ℕ)
      → ((j : ℕ) → get_elem? cs j ≡ get_elem? cands (i + j))
      → i + length cs ≡ length cands
      → SeenMin i best
      → SeenMin (length cands) (scan_min best i cs)
  unfolding scan_min
  scan_min-SeenMin [] best i part total before =
      subst (λ (t : ℕ). SeenMin t best) (omega arith) before
  scan_min-SeenMin (c ∷ cs) best i part total before =
      let here : get_elem? cands i ≡ some c = sym (part 0 ∙ ap (get_elem? cands) (omega arith)) in
      let rest : (j : ℕ) → get_elem? cs j ≡ get_elem? cands (suc i + j) =
        λ (j : ℕ). part (suc j) ∙ ap (get_elem? cands) (omega arith) in
      elim (Option-cases (load_metrics c.slot)) [
        | inl fails ↦
            rw (fails, scan_min)
              (scan_min-SeenMin cs best (suc i) rest (omega arith)
                (SeenMin-unread i best c here fails before))
        | inr (m, loads) ↦
            rw (loads, scan_min)
              (scan_min-SeenMin cs (closer best i m) (suc i) rest (omega arith) (
                SeenMin-read i best m record { candidate = c; there = here; loads = loads } before))
      ]
