-- ===== src/Routing/PathSelection.antt =====
-- Path metrics and the policies that need no configuration beyond a flag:
-- include/alpha/routing/path_selection.hpp and src/alpha/routing/path_selection.cpp.
-- One call at a time: a slot keeps its contents while a policy runs. The slot pointer of a
-- candidate is its slot, since every policy requires that it is not null. A result `none` of a
-- `choose` is an access outside the span.
pub mod Slots
pub mod Seqlock
pub mod RoundRobinPolicy
pub mod FlowHashPolicy
pub mod LatencyAwarePolicy
pub mod Cyclic
pub mod Fastest
pub mod Fallback
pub mod Latency
pub mod RoundTrips
mod Tests
use alpha_smart_router.Base.{
  ℕ, zero, suc, ◌+◌, ◌-◌, ◌%◌, ◌^◌, bit_and, bit_or, Bool, true, false, ◌&&◌, Option, none, some,
  List, ltb, ◌==◌, if◌then◌else◌, length, get_elem?,
}

-- `std::uint32_t`
abbrev pub u32_mod : ℕ
u32_mod = 2 ^ 32

pub record PathMetrics : Type 0 where
  pub rtt_us : ℕ
  pub one_way_delay_us : ℕ
  pub loss_ppm : ℕ
  pub avail_kbps : ℕ
  pub qos_class : ℕ
  pub healthy : Bool

-- `PathMetrics{}`
abbrev pub default_metrics : PathMetrics
default_metrics = record {
  rtt_us = 2 ^ 32 - 1;
  one_way_delay_us = 2 ^ 32 - 1;
  loss_ppm = 0;
  avail_kbps = 0;
  qos_class = 0;
  healthy = false;
}

pub record MetricsSlot : Type 0 where
  pub seq : ℕ  -- even: stable, odd: a writer is active
  pub metrics : PathMetrics

pub record CandidateRef : Type 0 where
  pub id : ℕ
  pub slot : MetricsSlot

pub record PacketContext : Type 0 where
  pub flow_hash : ℕ
  pub dscp : ℕ

-- `cp::update_metrics`
unfoldable pub update_metrics : MetricsSlot → PathMetrics → MetricsSlot
update_metrics s m = record s { seq = (bit_or s.seq 1 + 1) % u32_mod; metrics = m }

-- The loop of `dp::load_metrics`, with `rounds` attempts left. The second read of `seq` finds what
-- the first found, since nobody writes in between.
unfoldable pub attempt : (rounds : ℕ) → MetricsSlot → Option PathMetrics
attempt zero s = none
attempt (suc rounds) s =
    let rest = attempt rounds s in
    if bit_and s.seq 1 == 0
    then (if (s.seq == s.seq) && (s.seq % 2 == 0) then some s.metrics else rest)
    else rest

-- `dp::load_metrics`; none is its `false`.
unfoldable pub load_metrics : MetricsSlot → Option PathMetrics
unfolding attempt
load_metrics s = attempt 4 s

-- `static_cast<std::uint32_t>(cands.size())`
abbrev pub count : List CandidateRef → ℕ
count cands = length cands % u32_mod

-- `dp::load_metrics(*c.slot, m) && m.healthy`
unfoldable pub is_healthy : CandidateRef → Bool
is_healthy c = elim (load_metrics c.slot) [ none ↦ false | some m ↦ m.healthy ]

-- The loop of `RoundRobinPolicy::choose` and `FlowHashPolicy::choose` from `i` on, with `rounds`
-- left: the id of the first healthy candidate, or none inside for the end of the loop.
unfoldable pub scan : List CandidateRef → (n start rounds i : ℕ) → Option (Option ℕ)
scan cands n start zero i = some none
scan cands n start (suc rounds) i =
    let rest = scan cands n start rounds (suc i) in
    elim (get_elem? cands ((start + i) % u32_mod % n)) [
      | none ↦ none
      | some c ↦ if is_healthy c then some (some c.id) else rest
    ]

-- `cands[k].id`
abbrev pub id_at : List CandidateRef → ℕ → Option ℕ
id_at cands k = elim (get_elem? cands k) [ none ↦ none | some c ↦ some c.id ]

-- A scan, and `cands[start].id` where it finds none.
unfoldable pub scan_or_start : List CandidateRef → (n start : ℕ) → Option ℕ
unfolding scan
scan_or_start cands n start = elim (scan cands n start n 0) [
  | none ↦ none
  | some none ↦ id_at cands start
  | some (some id) ↦ some id
]
