-- ===== src/Routing/PathSelection/LatencyAwarePolicy.antt =====
-- `LatencyAwarePolicy` of src/alpha/routing/path_selection.cpp, with its generator of pseudo-random
-- numbers. A result `none` of `choose` is an access outside the span.
use alpha_smart_router.Base.{
  ℕ, zero, suc, ◌+◌, ◌*◌, ◌/◌, ◌%◌, ◌^◌, bit_xor, Bool, true, ◌&&◌, not, Option, none, some, List,
  [], ◌∷◌, ltb, leb, ◌==◌, if◌then◌else◌, get_elem?,
}
use alpha_smart_router.Routing.PathSelection.{
  PathMetrics, CandidateRef, PacketContext, u32_mod, count, load_metrics, is_healthy, id_at,
}

-- `XorShift32(seed)`, as its state
pub xor_shift : ℕ → ℕ
xor_shift seed = if seed == 0 then 0x9E3779B9 else seed

-- `next()`
pub next : ℕ → ℕ
next state =
    let x = bit_xor state (state * 2 ^ 13 % u32_mod) in
    let y = bit_xor x (x / 2 ^ 17) in bit_xor y (y * 2 ^ 5 % u32_mod)

-- `next_bounded(b)`, with the new state
unfoldable pub next_bounded : ℕ → ℕ → ℕ × ℕ
unfolding next
next_bounded state b = if b == 0 then (0, state) else (next state % b, next state)

pub record LatencyAwareConfig : Type 0 where
  pub tie_margin_us : ℕ
  pub explore_ppm : ℕ
  pub prefer_qos_class : Bool

-- `LatencyAwareConfig{}`
abbrev pub default_config : LatencyAwareConfig
default_config = record { tie_margin_us = 200; explore_ppm = 0; prefer_qos_class = true }

unfoldable pub qos_match : (path_class dscp : ℕ) → Bool
qos_match path_class dscp = not (path_class == 0)

-- The best candidate so far, by index and metrics; none while `have_best` is false.
abbrev pub Best : Type 0
Best = Option (ℕ × PathMetrics)

-- The body of the first loop for a healthy candidate.
unfoldable pub consider : LatencyAwareConfig → PacketContext → Best → ℕ → PathMetrics → Best
unfolding qos_match
consider cfg pkt none i m = some (i, m)
consider cfg pkt (some (best, bestm)) i m =
    if ltb m.rtt_us bestm.rtt_us
    then some (i, m)
    else if cfg.prefer_qos_class
        && (leb m.rtt_us ((bestm.rtt_us + cfg.tie_margin_us) % u32_mod)
            && (qos_match m.qos_class pkt.dscp && not (qos_match bestm.qos_class pkt.dscp)))
    then some (i, m)
    else some (best, bestm)

-- The first loop, from the candidate at `i` on.
unfoldable pub scan_best : LatencyAwareConfig → PacketContext → Best → ℕ → List CandidateRef → Best
unfolding consider
scan_best cfg pkt best i [] = best
scan_best cfg pkt best i (c ∷ cs) = elim (load_metrics c.slot) [
  | none ↦ scan_best cfg pkt best (suc i) cs
  | some m ↦ scan_best cfg pkt (if m.healthy then consider cfg pkt best i m else best) (suc i) cs
]

-- The body of the loop for when no candidate is healthy.
unfoldable pub closer : Best → ℕ → PathMetrics → Best
closer none i m = some (i, m)
closer (some (idx, minm)) i m = if ltb m.rtt_us minm.rtt_us then some (i, m) else some (idx, minm)

-- That loop, from the candidate at `i` on.
unfoldable pub scan_min : Best → ℕ → List CandidateRef → Best
unfolding closer
scan_min best i [] = best
scan_min best i (c ∷ cs) = elim (load_metrics c.slot) [
  | none ↦ scan_min best (suc i) cs
  | some m ↦ scan_min (closer best i m) (suc i) cs
]

-- The loop of the exploration: a healthy candidate other than the best, by its id.
unfoldable pub explore : List CandidateRef → (best n start rounds i : ℕ) → Option (Option ℕ)
explore cands best n start zero i = some none
explore cands best n start (suc rounds) i =
    let k = (start + i) % u32_mod % n in
    let rest = explore cands best n start rounds (suc i) in
    elim (get_elem? cands k) [
      | none ↦ none
      | some c ↦ if not (k == best) && is_healthy c then some (some c.id) else rest
    ]

-- What the exploration returns, and the salt: the id that its loop found, or that of the best.
unfoldable pub explored : List CandidateRef → (best salt : ℕ) → Option (Option ℕ) → Option ℕ × ℕ
explored cands best salt none = (none, salt)
explored cands best salt (some none) = (id_at cands best, salt)
explored cands best salt (some (some id)) = (some id, (salt + 0x9E37) % u32_mod)

-- From the exploration on, with the best candidate: its id or another's, and the salt.
unfoldable pub finish :
    LatencyAwareConfig → ℕ → List CandidateRef → PacketContext → ℕ → Option ℕ × ℕ
unfolding explore explored next_bounded xor_shift
finish cfg salt cands pkt best =
    let (drawn, state) = next_bounded (xor_shift (bit_xor pkt.flow_hash salt)) 1000000 in
    let (start, state') = next_bounded state (count cands) in
    if not (cfg.explore_ppm == 0) && ltb drawn cfg.explore_ppm
    then explored cands best salt (explore cands best (count cands) start (count cands) 0)
    else (id_at cands best, salt)

-- `choose` on the counter `salt_`, with the counter that it leaves.
unfoldable pub choose : LatencyAwareConfig → ℕ → List CandidateRef → PacketContext → Option ℕ × ℕ
unfolding scan_best scan_min finish
choose cfg salt [] pkt = (some 0, salt)
choose cfg salt (c ∷ cs) pkt = elim (scan_best cfg pkt none 0 (c ∷ cs)) [
  | some (best, bestm) ↦ finish cfg salt (c ∷ cs) pkt best
  | none ↦ elim (scan_min none 0 (c ∷ cs)) [
    | none ↦ (id_at (c ∷ cs) 0, salt)
    | some (idx, minm) ↦ (id_at (c ∷ cs) idx, salt)
  ]
]
