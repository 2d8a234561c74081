-- ===== src/Routing/PathSelection/Seqlock.antt =====
-- A metrics slot under two threads: `cp::update_metrics` by its one writer and `dp::load_metrics` by
-- a reader, of src/alpha/routing/path_selection.cpp, interleaved at each access of the slot.
-- The metrics are no atomic: they are written and read field by field, in any order. `ordered` says
-- whether the accesses of a thread to `seq` and to the fields take effect in the order of its program.
-- The source does not enforce that: its first store to `seq` is relaxed, so the writes of fields can
-- overtake it, and nothing keeps the reads of fields before the second load. Where `ordered` is
-- false, steps that do so are added.
pub mod Torn
pub mod Unordered
mod Tests
use alpha_smart_router.Base.{
  ℕ, zero, suc, ◌+◌, ◌%◌, ◌^◌, ◌≡◌, ◌≢◌, bit_and, bit_or, Bool, true, false, Option, none, some,
}
use alpha_smart_router.Routing.PathSelection.{PathMetrics, u32_mod}

pub data Field : Type 0 where
  rtt_us one_way_delay_us loss_ppm avail_kbps qos_class healthy : Field

abbrev bit : Bool → ℕ
bit true = 1
bit false = 0

abbrev pub word : PathMetrics → Field → ℕ
word m rtt_us = m.rtt_us
word m one_way_delay_us = m.one_way_delay_us
word m loss_ppm = m.loss_ppm
word m avail_kbps = m.avail_kbps
word m qos_class = m.qos_class
word m healthy = bit m.healthy

abbrev pub same_field : Field → Field → Bool
same_field rtt_us rtt_us = true
same_field one_way_delay_us one_way_delay_us = true
same_field loss_ppm loss_ppm = true
same_field avail_kbps avail_kbps = true
same_field qos_class qos_class = true
same_field healthy healthy = true
same_field f g = false

abbrev pub put {ℓ} : {A : Type ℓ} → (Field → A) → Field → A → Field → A
put cells f a g = elim (same_field f g) [ true ↦ a | false ↦ cells g ]

-- Where the writer stands, with its local `start`.
pub data Writer : Type 0 where
  idle : Writer
  writing : (m : PathMetrics) (start : ℕ) → Writer

-- Where the reader stands, with the attempts that its loop has left; in an attempt it has `s1` and
-- the fields that it has read. `since` counts the publications since it read `s1`, and `latest` is
-- what was published last when it accepted.
pub data Reader : Type 0 where
  trying : (left : ℕ) → Reader
  reading : (left s1 since : ℕ) (got : Field → Option ℕ) → Reader
  accepted : (since : ℕ) (got : Field → Option ℕ) (latest : PathMetrics) → Reader
  failed : Reader

abbrev pub publication : Reader → Reader
publication (reading left s1 since got) = reading left s1 (suc since) got
publication r = r

-- `published` is what the last finished update wrote.
pub record Shared : Type 0 where
  pub seq : ℕ
  pub cells : Field → ℕ
  pub writer : Writer
  pub reader : Reader
  pub published : PathMetrics

pub data Step (ordered : Bool) (s : Shared) : Shared → Type 0 where
  -- `start = seq.load(); seq.store(start | 1)`
  enter :
      (m : PathMetrics)
      → s.writer ≡ idle
      → Step ordered s (record s { seq = bit_or s.seq 1; writer = writing m s.seq })
  -- the same, while the store is held back; it takes effect later, or under that of `publish`
  enter_held :
      (m : PathMetrics)
      → ordered ≡ false
      → s.writer ≡ idle
      → Step ordered s (record s { writer = writing m s.seq })
  mark_late :
      {m : PathMetrics} {start : ℕ}
      → ordered ≡ false
      → s.writer ≡ writing m start
      → Step ordered s (record s { seq = bit_or start 1 })
  -- one field of `s.metrics = m`
  write :
      {m : PathMetrics} {start : ℕ} (f : Field)
      → s.writer ≡ writing m start
      → Step ordered s (record s { cells = put s.cells f (word m f) })
  -- `seq.store((start | 1) + 1)`, after all fields
  publish :
      {m : PathMetrics} {start : ℕ}
      → s.writer ≡ writing m start
      → ((f : Field) → s.cells f ≡ word m f)
      → Step ordered s (record s {
        seq = (bit_or start 1 + 1) % u32_mod;
        writer = idle;
        reader = publication s.reader;
        published = m;
      })
  -- `s1 = seq.load(); if (s1 & 1) continue;`
  see_writer :
      {left : ℕ}
      → s.reader ≡ trying (suc left)
      → bit_and s.seq 1 ≢ 0
      → Step ordered s (record s { reader = trying left })
  begin :
      {left : ℕ}
      → s.reader ≡ trying (suc left)
      → bit_and s.seq 1 ≡ 0
      → Step ordered s (record s { reader = reading left s.seq 0 (λ f. none) })
  -- one field of `snap = s.metrics`
  read :
      {left s1 since : ℕ} {got : Field → Option ℕ} (f : Field)
      → s.reader ≡ reading left s1 since got
      → Step ordered s (record s { reader = reading left s1 since (put got f (some (s.cells f))) })
  -- `s2 = seq.load()`, which agrees or not
  accept :
      {left s1 since : ℕ} {got : Field → Option ℕ}
      → s.reader ≡ reading left s1 since got
      → ((f : Field) → got f ≢ none)
      → s.seq ≡ s1
      → s.seq % 2 ≡ 0
      → Step ordered s (record s { reader = accepted since got s.published })
  -- one field of `snap = s.metrics`, after the second load
  read_late :
      {since : ℕ} {got : Field → Option ℕ} {latest : PathMetrics} (f : Field)
      → ordered ≡ false
      → s.reader ≡ accepted since got latest
      → Step ordered s (record s { reader = accepted since (put got f (some (s.cells f))) latest })
  retry :
      {left s1 since : ℕ} {got : Field → Option ℕ}
      → s.reader ≡ reading left s1 since got
      → s.seq ≢ s1
      → Step ordered s (record s { reader = trying left })
  give_up : s.reader ≡ trying 0 → Step ordered s (record s { reader = failed })

-- A slot that holds `m`, and a reader at the start of its four attempts.
abbrev pub start : (seq : ℕ) → PathMetrics → Shared
start seq m = record { seq = seq; cells = word m; writer = idle; reader = trying 4; published = m }

pub data Reach (ordered : Bool) (seq : ℕ) (m : PathMetrics) : Shared → Type 0 where
  here : Reach ordered seq m (start seq m)
  next : {s t : Shared} → Reach ordered seq m s → Step ordered s t → Reach ordered seq m t
