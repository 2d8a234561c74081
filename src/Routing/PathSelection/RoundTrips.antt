-- ===== src/Routing/PathSelection/RoundTrips.antt =====
-- The round trip of what the latency-aware policy chooses, and what it falls back on.
use alpha_smart_router.Base.{
  ℕ, ◌<◌, ◌≡◌, ◌⊎◌, inl, inr, ◌∙◌, ap, false, some, List, arith, length, get_elem?, lt-get_elem?,
  get_elem?-lt,
}
use alpha_smart_router.Routing.PathSelection.{PathMetrics, CandidateRef, PacketContext, id_at}
use alpha_smart_router.Routing.PathSelection.LatencyAwarePolicy.{LatencyAwareConfig, finish, choose}
use alpha_smart_router.Routing.PathSelection.Cyclic.{id_at_lem}
use alpha_smart_router.Routing.PathSelection.Fastest.{
  HealthyAt, NoneWell, FastestTo, NearTo, slack, healthy_of,
}
use alpha_smart_router.Routing.PathSelection.Fallback.{ReadAt, NoneRead, ClosestTo}
use alpha_smart_router.Routing.PathSelection.Latency.{choose-Ends}

plain_finish :
    (cfg : LatencyAwareConfig) (salt : ℕ) (cands : List CandidateRef) (pkt : PacketContext) (b : ℕ)
    → cfg.explore_ppm ≡ 0
    → finish cfg salt cands pkt b ≡ (id_at cands b, salt)
unfolding finish
plain_finish cfg salt cands pkt b plain = ground arith

-- Without exploration, if a candidate is healthy, the latency-aware policy chooses a healthy
-- candidate, and its salt stays. Without a preference by QoS class no healthy candidate has a
-- shorter round trip; with one, none has a round trip that is shorter by more than the tie margin
-- times the number of candidates.
pub latency_near :
    (cfg : LatencyAwareConfig) (salt : ℕ) (cands : List CandidateRef) (pkt : PacketContext) (j : ℕ)
    (n : PathMetrics)
    → cfg.explore_ppm ≡ 0
    → HealthyAt cands j n
    → (k : ℕ) × (m : PathMetrics) × (at : HealthyAt cands k m) × (choose cfg salt cands pkt
        ≡ (some at.candidate.id, salt))
      × NearTo cands (slack cfg (length cands)) (length cands) m
latency_near cfg salt cands pkt j n no_explore h =
    elim (choose-Ends cfg salt cands pkt (omega (arith, get_elem?-lt cands j h.there))) [
      | inl (b, m, at, near, e) ↦ (
        b,
        m,
        at,
        e
            ∙ plain_finish cfg salt cands pkt b no_explore
            ∙ ap (λ o. (o, salt)) (id_at_lem cands b at.there),
        near,
      )
      | inr (ill, ends) ↦ absurd (
          cc (
            ill j h.candidate (get_elem?-lt cands j h.there) h.there,
            healthy_of h.candidate h.loads,
            h.well,
          ))
    ]

-- Without exploration and without a preference by QoS class, if a candidate is healthy, the
-- latency-aware policy chooses a healthy candidate such that no healthy one has a shorter round
-- trip; and its salt stays.
pub latency_fastest :
    (cfg : LatencyAwareConfig) (salt : ℕ) (cands : List CandidateRef) (pkt : PacketContext) (j : ℕ)
    (n : PathMetrics)
    → cfg.explore_ppm ≡ 0
    → cfg.prefer_qos_class ≡ false
    → HealthyAt cands j n
    → (k : ℕ) × (m : PathMetrics) × (at : HealthyAt cands k m) × (choose cfg salt cands pkt
        ≡ (some at.candidate.id, salt))
      × FastestTo cands (length cands) m
latency_fastest cfg salt cands pkt j n no_explore no_qos h =
    let (k, m, at, out, near) = latency_near cfg salt cands pkt j n no_explore h in
    (k, m, at, out, λ i n' lt there. ground (arith, near i n' lt there))

-- If there are candidates and none is healthy, the latency-aware policy chooses one whose metrics
-- it can load and such that no other it can load has a shorter round trip, or the first candidate
-- if it can load none; and its salt stays.
pub latency_fallback :
    (cfg : LatencyAwareConfig) (salt : ℕ) (cands : List CandidateRef) (pkt : PacketContext)
    → 0 < length cands
    → NoneWell cands (length cands)
    → ((k : ℕ) × (m : PathMetrics) × (at : ReadAt cands k m) × (choose cfg salt cands pkt
          ≡ (some at.candidate.id, salt))
        × ClosestTo cands (length cands) m)
      ⊎ ((c : CandidateRef) × (get_elem? cands 0 ≡ some c)
          × (choose cfg salt cands pkt ≡ (some c.id, salt))
          × NoneRead cands (length cands))
latency_fallback cfg salt cands pkt lt ill = elim (choose-Ends cfg salt cands pkt lt) [
  | inl (b, m, at, fastest, e) ↦ absurd (
      cc (
        ill b at.candidate (get_elem?-lt cands b at.there) at.there,
        healthy_of at.candidate at.loads,
        at.well,
      ))
  | inr (ill', inl (b, m, at, closest, e)) ↦
      inl (b, m, at, e ∙ ap (λ o. (o, salt)) (id_at_lem cands b at.there), closest)
  | inr (ill', inr (unread, e)) ↦
      let (c, there) = lt-get_elem? cands 0 lt in
      inr (c, there, e ∙ ap (λ o. (o, salt)) (id_at_lem cands 0 there), unread)
]
