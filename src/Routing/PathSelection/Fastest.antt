-- ===== src/Routing/PathSelection/Fastest.antt =====
-- What the latency-aware policy chooses.
use alpha_smart_router.Base.{
  ℕ, suc, ◌+◌, ◌*◌, ◌%◌, ◌≤◌, ◌<◌, ◌≡◌, inl, inr, refl, ◌∙◌, sym, ap, Bool, true, false, none, some,
  List, [], ◌∷◌, arith, if◌then◌else◌, length, get_elem?, Bool-cases, Option-cases, ℕ_discrete, ltb,
  leb, ltb→lt, ◌&&◌, not, subst,
}
use alpha_smart_router.Routing.PathSelection.{
  PathMetrics, CandidateRef, PacketContext, u32_mod, load_metrics, is_healthy,
}
use alpha_smart_router.Routing.PathSelection.LatencyAwarePolicy.{
  LatencyAwareConfig, Best, consider, qos_match, scan_best,
}

pub healthy_of :
    (c : CandidateRef) {m : PathMetrics} → load_metrics c.slot ≡ some m → is_healthy c ≡ m.healthy
unfolding is_healthy
healthy_of c loads = rw (loads, is_healthy) refl

pub healthy_unread : (c : CandidateRef) → load_metrics c.slot ≡ none → is_healthy c ≡ false
unfolding is_healthy
healthy_unread c fails = rw (fails, is_healthy) refl

-- How far the first loop may have drifted from the shortest round trip after `i` candidates: by a
-- tie margin at each, if it prefers a QoS class.
abbrev pub slack : LatencyAwareConfig → ℕ → ℕ
slack cfg i = if cfg.prefer_qos_class then i * cfg.tie_margin_us else 0

slack-suc : (cfg : LatencyAwareConfig) (i : ℕ) → slack cfg i ≤ slack cfg (suc i)
slack-suc cfg i = grind arith

slack-prefer :
    (cfg : LatencyAwareConfig) (i : ℕ) (close : Bool)
    → (cfg.prefer_qos_class && close) ≡ true
    → slack cfg (suc i) ≡ slack cfg i + cfg.tie_margin_us
slack-prefer cfg i close preferred = grind arith

-- The sum may wrap, which only makes it smaller.
within_margin :
    (cfg : LatencyAwareConfig) (pkt : PacketContext) (m bm : PathMetrics)
    → (cfg.prefer_qos_class
        && (leb m.rtt_us ((bm.rtt_us + cfg.tie_margin_us) % u32_mod)
            && (qos_match m.qos_class pkt.dscp && not (qos_match bm.qos_class pkt.dscp))))
      ≡ true
    → m.rtt_us ≤ bm.rtt_us + cfg.tie_margin_us
within_margin cfg pkt m bm preferred = ground arith

module _ (cands : List CandidateRef) where
  -- The candidate at `k` is healthy, with metrics `m`.
  pub record HealthyAt (k : ℕ) (m : PathMetrics) : Type 0 where
    pub candidate : CandidateRef
    pub there : get_elem? cands k ≡ some candidate
    pub loads : load_metrics candidate.slot ≡ some m
    pub well : m.healthy ≡ true

  -- Of the candidates before `i`, none is healthy.
  abbrev pub NoneWell : ℕ → Type 0
  NoneWell i =
      (j : ℕ) (d : CandidateRef) → j < i → get_elem? cands j ≡ some d → is_healthy d ≡ false

  -- No healthy candidate before `i` has a round trip that is shorter than `m`'s by more than `s`.
  abbrev pub NearTo : (s i : ℕ) → PathMetrics → Type 0
  NearTo s i m = (j : ℕ) (n : PathMetrics) → j < i → HealthyAt j n → m.rtt_us ≤ n.rtt_us + s

  -- No healthy candidate before `i` has a shorter round trip than `m`.
  abbrev pub FastestTo : ℕ → PathMetrics → Type 0
  FastestTo i m = (j : ℕ) (n : PathMetrics) → j < i → HealthyAt j n → m.rtt_us ≤ n.rtt_us

  -- The first loop before the candidate at `i`.
  abbrev pub Seen : LatencyAwareConfig → ℕ → Best → Type 0
  Seen cfg i none = NoneWell i
  Seen cfg i (some (b, m)) = HealthyAt b m × NearTo (slack cfg i) i m

  -- The candidate at `i` is one that is not healthy.
  NoneWell-suc :
      (i : ℕ) (c : CandidateRef)
      → get_elem? cands i ≡ some c
      → is_healthy c ≡ false
      → NoneWell i
      → NoneWell (suc i)
  NoneWell-suc i c here ill before j d lt there = elim (ℕ_discrete j i) [
    | yes same ↦ ground (arith, ap (get_elem? cands) same)
    | no differ ↦ before j d (omega arith) there
  ]

  HealthyAt-not_ill :
      (i : ℕ) (c : CandidateRef) {n : PathMetrics}
      → get_elem? cands i ≡ some c
      → is_healthy c ≡ false
      → ¬ HealthyAt i n
  HealthyAt-not_ill i c here ill h =
      let same : c ≡ h.candidate = cc (here, h.there) in
      cc (healthy_of h.candidate h.loads, h.well, ill, same)

  Seen-ill :
      (cfg : LatencyAwareConfig) (i : ℕ) (best : Best) (c : CandidateRef)
      → get_elem? cands i ≡ some c
      → is_healthy c ≡ false
      → Seen cfg i best
      → Seen cfg (suc i) best
  Seen-ill cfg i none c here ill before = NoneWell-suc i c here ill before
  Seen-ill cfg i (some (b, m)) c here ill (at, near) = (
    at,
    λ j n lt h. elim (ℕ_discrete j i) [
      | yes same ↦ absurd (HealthyAt-not_ill i c here ill (subst (λ (t : ℕ). HealthyAt t n) same h))
      | no differ ↦ omega (arith, near j n (omega arith) h, slack-suc cfg i)
    ],
  )

  -- At another index, or at this one with the metrics that it loads.
  NearTo-suc :
      (s i : ℕ) (m m' : PathMetrics)
      → HealthyAt i m'
      → m.rtt_us ≤ m'.rtt_us + s
      → NearTo s i m
      → NearTo s (suc i) m
  NearTo-suc s i m m' here le before j n lt h = elim (ℕ_discrete j i) [
    | yes same ↦
        let h' = subst (λ (t : ℕ). HealthyAt t n) same h in
        let one : h'.candidate ≡ here.candidate = cc (h'.there, here.there) in
        let equal : n ≡ m' = cc (h'.loads, here.loads, one) in
        omega (arith, ap (λ (p : PathMetrics). p.rtt_us) equal)
    | no differ ↦ before j n (omega arith) h
  ]

  Seen-well :
      (cfg : LatencyAwareConfig) (pkt : PacketContext) (i : ℕ) (best : Best) (m : PathMetrics)
      → HealthyAt i m
      → Seen cfg i best
      → Seen cfg (suc i) (consider cfg pkt best i m)
  unfolding consider
  Seen-well cfg pkt i none m here before = (
    here,
    NearTo-suc (slack cfg (suc i)) i m m here (omega arith) (λ j n lt h.
        absurd (HealthyAt-not_ill j h.candidate h.there (before j h.candidate lt h.there) h)),
  )
  Seen-well cfg pkt i (some (b, bm)) m here (at, near) =
      let close =
        leb m.rtt_us ((bm.rtt_us + cfg.tie_margin_us) % u32_mod)
        && (qos_match m.qos_class pkt.dscp && not (qos_match bm.qos_class pkt.dscp)) in
      elim (Bool-cases (ltb m.rtt_us bm.rtt_us)) [
        | inl faster ↦
            rw (faster, consider)
              (
                here,
                NearTo-suc (slack cfg (suc i)) i m m here (omega arith)
                    (λ j n lt h. omega (arith, near j n lt h, ltb→lt _ _ faster, slack-suc cfg i)),
              )
        | inr slower ↦ elim (Bool-cases (cfg.prefer_qos_class && close)) [
          | inl preferred ↦
              rw (slower, preferred, consider)
                (
                  here,
                  NearTo-suc (slack cfg (suc i)) i m m here (omega arith) (λ j n lt h. omega (
                    arith,
                    near j n lt h,
                    within_margin cfg pkt m bm preferred,
                    slack-prefer cfg i close preferred,
                  )),
                )
          | inr kept ↦
              rw (slower, kept, consider)
                (
                  at,
                  NearTo-suc (slack cfg (suc i)) i bm m here (ground arith)
                      (λ j n lt h. omega (arith, near j n lt h, slack-suc cfg i)),
                )
        ]
      ]

  Seen-step :
      (cfg : LatencyAwareConfig) (pkt : PacketContext) (i : ℕ) (best : Best) (c : CandidateRef)
      (m : PathMetrics) (well : Bool)
      → get_elem? cands i ≡ some c
      → load_metrics c.slot ≡ some m
      → m.healthy ≡ well
      → Seen cfg i best
      → Seen cfg (suc i) (if well then consider cfg pkt best i m else best)
  Seen-step cfg pkt i best c m true here loads well before =
      Seen-well cfg pkt i best m record { candidate = c; there = here; loads = loads; well = well }
        before
  Seen-step cfg pkt i best c m false here loads ill before =
      Seen-ill cfg i best c here (healthy_of c loads ∙ ill) before

  -- The first loop, whose list stands in the span from `i` on.
  pub scan_best-Seen :
      (cs : List CandidateRef) (cfg : LatencyAwareConfig) (pkt : PacketContext) (best : Best)
      (i : ℕ)
      → ((j : ℕ) → get_elem? cs j ≡ get_elem? cands (i + j))
      → i + length cs ≡ length cands
      → Seen cfg i best
      → Seen cfg (length cands) (scan_best cfg pkt best i cs)
  unfolding scan_best
  scan_best-Seen [] cfg pkt best i part total before =
      subst (λ (t : ℕ). Seen cfg t best) (omega arith) before
  scan_best-Seen (c ∷ cs) cfg pkt best i part total before =
      let here : get_elem? cands i ≡ some c = sym (part 0 ∙ ap (get_elem? cands) (omega arith)) in
      let rest : (j : ℕ) → get_elem? cs j ≡ get_elem? cands (suc i + j) =
        λ (j : ℕ). part (suc j) ∙ ap (get_elem? cands) (omega arith) in
      elim (Option-cases (load_metrics c.slot)) [
        | inl fails ↦
            rw (fails, scan_best)
              (scan_best-Seen cs cfg pkt best (suc i) rest (omega arith)
                (Seen-ill cfg i best c here (healthy_unread c fails) before))
        | inr (m, loads) ↦
            rw (loads, scan_best)
              (scan_best-Seen cs cfg pkt (if m.healthy then consider cfg pkt best i m else best)
                (suc i) rest (omega arith)
                (Seen-step cfg pkt i best c m m.healthy here loads refl before))
      ]
