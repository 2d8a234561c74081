-- ===== src/Routing/PathSelection/Cyclic.antt =====
-- What the round-robin and the flow-hash policy choose.
use alpha_smart_router.Base.{
  ℕ, zero, suc, ◌+◌, ◌%◌, ◌^◌, ◌≤◌, ◌<◌, ◌≡◌, ◌⊎◌, inl, inr, refl, ap, Bool, true, false, Option,
  none, some, List, arith, ◌==◌, if◌then◌else◌, length, get_elem?, lt-get_elem?, Bool-cases,
  ℕ_discrete,
}
use native.Mathlib.Nat.{mod-eq_of_lt, mod-lt}
use alpha_smart_router.Routing.PathSelection.{
  CandidateRef, PacketContext, u32_mod, count, is_healthy, scan, scan_or_start, id_at,
}
use alpha_smart_router.Routing.PathSelection.RoundRobinPolicy
use alpha_smart_router.Routing.PathSelection.FlowHashPolicy

-- The candidate `i` places after `start`, round the span.
abbrev pub place : List CandidateRef → (start i : ℕ) → Option CandidateRef
place cands start i = get_elem? cands ((start + i) % length cands)

-- None of the candidates from place `i` up to place `j` is healthy.
abbrev pub NoneHealthy : List CandidateRef → (start i j : ℕ) → Type 0
NoneHealthy cands start i j =
    (k : ℕ) (d : CandidateRef) → i ≤ k → k < j → place cands start k ≡ some d → is_healthy d ≡ false

-- `c` is the first healthy candidate from `start` on, or the one at `start` if none is healthy.
pub data Chosen (cands : List CandidateRef) (start : ℕ) (c : CandidateRef) : Type 0 where
  first_healthy :
      (i : ℕ)
      → i < length cands
      → place cands start i ≡ some c
      → is_healthy c ≡ true
      → NoneHealthy cands start 0 i
      → Chosen cands start c
  degraded :
      get_elem? cands start ≡ some c
      → NoneHealthy cands start 0 (length cands)
      → Chosen cands start c

pub id_at_lem :
    (cands : List CandidateRef) (k : ℕ) {c : CandidateRef}
    → get_elem? cands k ≡ some c
    → id_at cands k ≡ some c.id
id_at_lem cands k there = rw (there, id_at) refl

module _ (cands : List CandidateRef) (some_cands : 0 < length cands)
    (small : length cands ≤ 2 ^ 31) where
  counted : count cands ≡ length cands
  counted = mod-eq_of_lt (omega (arith, small))

  positive : (length cands == 0) ≡ false
  positive = ground arith

  -- How a scan from place `i` ends.
  abbrev Scanned : (start i : ℕ) → Option (Option ℕ) → Type 0
  Scanned start i out =
      ((out ≡ some none) × NoneHealthy cands start i (length cands))
      ⊎ ((j : ℕ) × (c : CandidateRef) × (out ≡ some (some c.id))
          × (i ≤ j)
          × (j < length cands)
          × (place cands start j ≡ some c)
          × (is_healthy c ≡ true)
          × NoneHealthy cands start i j)

  NoneHealthy-cons :
      (start i j : ℕ) (c : CandidateRef)
      → place cands start i ≡ some c
      → is_healthy c ≡ false
      → NoneHealthy cands start (suc i) j
      → NoneHealthy cands start i j
  NoneHealthy-cons start i j c here ill rest k d le lt there = elim (ℕ_discrete i k) [
    | yes same ↦ ground (arith, ap (λ (t : ℕ). place cands start t) same)
    | no differ ↦ rest k d (omega arith) lt there
  ]

  scan-Scanned :
      (start rounds i : ℕ)
      → start < length cands
      → i + rounds ≡ length cands
      → Scanned start i (scan cands (length cands) start rounds i)
  unfolding scan
  scan-Scanned start zero i lt total = inl (refl, λ k d le less there. absurd (omega arith))
  scan-Scanned start (suc rounds) i lt total =
      let no_wrap : (start + i) % u32_mod % length cands ≡ (start + i) % length cands =
        ap (λ (t : ℕ). t % length cands) (mod-eq_of_lt (omega (arith, small))) in
      let (c, here) = lt-get_elem? cands ((start + i) % length cands) (mod-lt _ some_cands) in
      let rest = scan-Scanned start rounds (suc i) lt (omega arith) in
      elim (Bool-cases (is_healthy c)) [
        | inl well ↦
            rw (no_wrap, here, well, scan)
              (inr (
                i,
                c,
                refl,
                omega arith,
                omega arith,
                here,
                well,
                λ k d le less there. absurd (omega arith),
              ))
        | inr ill ↦
            rw (no_wrap, here, ill, scan)
              (elim rest [
                | inl (ends, none_left) ↦
                    inl (ends, NoneHealthy-cons start i (length cands) c here ill none_left)
                | inr (j, d, out, le, less, there, well, before) ↦ inr (
                  j,
                  d,
                  out,
                  omega arith,
                  less,
                  there,
                  well,
                  NoneHealthy-cons start i j c here ill before,
                )
              ])
      ]

  scan_or_start-Chosen :
      (start : ℕ)
      → start < length cands
      → (c : CandidateRef) × (scan_or_start cands (length cands) start ≡ some c.id)
        × Chosen cands start c
  unfolding scan_or_start
  scan_or_start-Chosen start lt = elim (scan-Scanned start (length cands) 0 lt (omega arith)) [
    | inl (ends, none_left) ↦
        let (c, there) = lt-get_elem? cands start lt in
        (c, rw (ends, scan_or_start) (id_at_lem cands start there), Chosen.degraded there none_left)
    | inr (j, d, out, le, less, there, well, before) ↦
        (d, rw (out, scan_or_start) refl, Chosen.first_healthy j less there well before)
  ]

  -- Of one to 2^31 candidates, round robin chooses the first healthy one from the place of its
  -- counter on, round the span, or the one at that place if none is healthy; and it steps its
  -- counter by one, round 2^32.
  pub round_robin_lem :
      (idx : ℕ) (pkt : PacketContext)
      → let (out, idx') = RoundRobinPolicy.choose idx cands pkt in
        (idx' ≡ (idx + 1) % 2 ^ 32)
        × ((c : CandidateRef) × (out ≡ some c.id) × Chosen cands (idx % length cands) c)
  unfolding RoundRobinPolicy.choose
  round_robin_lem idx pkt =
      rw (counted, positive)
        (refl, scan_or_start-Chosen (idx % length cands) (mod-lt idx some_cands))

  -- Of one to 2^31 candidates, the policy by flow hash chooses, if it skips unhealthy candidates,
  -- the first healthy one from the place of the hash on, round the span, or the one at that place
  -- if none is healthy; else the one at that place.
  pub flow_hash_lem :
      (skip : Bool) (pkt : PacketContext)
      → let start = pkt.flow_hash % length cands in
        (c : CandidateRef) × (FlowHashPolicy.choose skip cands pkt ≡ some c.id)
        × (if skip then Chosen cands start c else get_elem? cands start ≡ some c)
  unfolding FlowHashPolicy.choose
  flow_hash_lem true pkt =
      rw (counted, positive)
        (scan_or_start-Chosen (pkt.flow_hash % length cands) (mod-lt pkt.flow_hash some_cands))
  flow_hash_lem false pkt =
      let (c, there) =
        lt-get_elem? cands (pkt.flow_hash % length cands) (mod-lt pkt.flow_hash some_cands) in
      (c, rw (counted, positive) (id_at_lem cands (pkt.flow_hash % length cands) there), there)
