-- ===== src/Routing/PolicyBinding/Threads.antt =====
-- A binding under two threads: the one writer, `cp::publish_policy` and `cp::clear_policy` of
-- include/alpha/routing/policy_binding.hpp and src/alpha/routing/policy_binding.cpp, and a worker in
-- `dp::snapshot_binding`, interleaved at each access of the binding.
-- `ordered` says whether the accesses of a thread take effect in the order of its program. The
-- source does not enforce that: its accesses of the pointers, and the first store to `seq`, are
-- relaxed and have no fences. Where `ordered` is false, steps are added in which the stores of the
-- pointers overtake the first store to `seq`, and the loads of the pointers come after the second
-- load of it.
mod Fits
pub mod Snapshot
pub mod Attempts
pub mod WorkerCalls
pub mod Alone
pub mod Race
pub mod Unordered
mod Tests
use alpha_smart_router.Base.{
  ℕ, zero, suc, ◌+◌, ◌%◌, ◌≡◌, ◌≢◌, bit_and, bit_or, Bool, false, Option, none, some,
}
use alpha_smart_router.Routing.PathSelection.{u32_mod}
use alpha_smart_router.Routing.PolicyBinding.{ChooseFn, PolicyBinding}

-- What the writer does: publish the object at an address, or clear.
pub data Update : Type 0 where
  publish : (policy : ℕ) → Update
  clear : Update

-- Where the writer stands, with its local `start`: after its first store to `seq`, after one pointer
-- and after both.
pub data Writer : Type 0 where
  idle : Writer
  entered one_stored both_stored : (u : Update) (start : ℕ) → Writer

-- The local `start` of a writer in a call.
abbrev pub start_of : Writer → Option ℕ
start_of idle = none
start_of (entered u start) = some start
start_of (one_stored u start) = some start
start_of (both_stored u start) = some start

-- Where the reader stands, with the attempts that its loop has left, and what it has read. `since`
-- counts the updates that finished since it read `s1`, and `latest` is the last that had finished
-- when it accepted.
pub data Reader : Type 0 where
  trying : (left : ℕ) → Reader
  read_seq : (left s1 since : ℕ) → Reader
  read_fn : (left s1 since : ℕ) (fn : Option ChooseFn) → Reader
  read_state : (left s1 since : ℕ) (fn : Option ChooseFn) (st : Option ℕ) → Reader
  accepted : (since : ℕ) (fn : Option ChooseFn) (st : Option ℕ) (latest : Update) → Reader
  failed : Reader

abbrev pub finished : Reader → Reader
finished (read_seq left s1 since) = read_seq left s1 (suc since)
finished (read_fn left s1 since fn) = read_fn left s1 (suc since) fn
finished (read_state left s1 since fn st) = read_state left s1 (suc since) fn st
finished r = r

-- `last` is the last update that finished.
pub record Shared : Type 0 where
  pub binding : PolicyBinding
  pub writer : Writer
  pub reader : Reader
  pub last : Update

-- `b.seq.store(start | 1)`
abbrev pub mark : PolicyBinding → PolicyBinding
mark b = record b { seq = bit_or b.seq 1 }

-- `b.seq.store((start | 1) + 1)`
abbrev pub unmark : (start : ℕ) → PolicyBinding → PolicyBinding
unmark start b = record b { seq = (bit_or start 1 + 1) % u32_mod }

-- The class of the object at each address; objects outlive the binding.
module _ (class : ℕ → ChooseFn) where
  abbrev pub fn_of : Update → Option ChooseFn
  fn_of (publish policy) = some (class policy)
  fn_of clear = none

  abbrev pub state_of : Update → Option ℕ
  state_of (publish policy) = some policy
  state_of clear = none

  -- The first of the two pointers that an update stores: `state` to publish, `fn` to clear.
  abbrev pub store_one : Update → PolicyBinding → PolicyBinding
  store_one (publish policy) b = record b { state = some policy }
  store_one clear b = record b { fn = none }

  -- The second one.
  abbrev pub store_other : Update → PolicyBinding → PolicyBinding
  store_other (publish policy) b = record b { fn = some (class policy) }
  store_other clear b = record b { state = none }

  pub data Step (ordered : Bool) (s : Shared) : Shared → Type 0 where
    -- `start = b.seq.load(); b.seq.store(start | 1)`
    enter :
        (u : Update)
        → s.writer ≡ idle
        → Step ordered s (record s { binding = mark s.binding; writer = entered u s.binding.seq })
    -- the same, while the store is held back; it takes effect later, or under that of `leave`
    enter_held :
        (u : Update)
        → ordered ≡ false
        → s.writer ≡ idle
        → Step ordered s (record s { writer = entered u s.binding.seq })
    mark_late :
        {start : ℕ}
        → ordered ≡ false
        → start_of s.writer ≡ some start
        → Step ordered s (record s { binding = record s.binding { seq = bit_or start 1 } })
    store_first :
        {u : Update} {start : ℕ}
        → s.writer ≡ entered u start
        → Step ordered s (record s { binding = store_one u s.binding; writer = one_stored u start })
    store_second :
        {u : Update} {start : ℕ}
        → s.writer ≡ one_stored u start
        → Step ordered s
            (record s { binding = store_other u s.binding; writer = both_stored u start })
    -- `b.seq.store((start | 1) + 1)`
    leave :
        {u : Update} {start : ℕ}
        → s.writer ≡ both_stored u start
        → Step ordered s (record {
          binding = unmark start s.binding;
          writer = idle;
          reader = finished s.reader;
          last = u;
        })
    -- `s1 = b.seq.load(); if (s1 & 1) continue;`
    see_writer :
        {left : ℕ}
        → s.reader ≡ trying (suc left)
        → bit_and s.binding.seq 1 ≢ 0
        → Step ordered s (record s { reader = trying left })
    load_seq :
        {left : ℕ}
        → s.reader ≡ trying (suc left)
        → bit_and s.binding.seq 1 ≡ 0
        → Step ordered s (record s { reader = read_seq left s.binding.seq 0 })
    load_fn :
        {left s1 since : ℕ}
        → s.reader ≡ read_seq left s1 since
        → Step ordered s (record s { reader = read_fn left s1 since s.binding.fn })
    load_state :
        {left s1 since : ℕ} {fn : Option ChooseFn}
        → s.reader ≡ read_fn left s1 since fn
        → Step ordered s (record s { reader = read_state left s1 since fn s.binding.state })
    -- `s2 = b.seq.load()`, which agrees and is even, or not
    accept :
        {left s1 since : ℕ} {fn : Option ChooseFn} {st : Option ℕ}
        → s.reader ≡ read_state left s1 since fn st
        → s.binding.seq ≡ s1
        → s.binding.seq % 2 ≡ 0
        → Step ordered s (record s { reader = accepted since fn st s.last })
    -- the loads of the pointers, after the second load
    load_fn_late :
        {since : ℕ} {fn : Option ChooseFn} {st : Option ℕ} {latest : Update}
        → ordered ≡ false
        → s.reader ≡ accepted since fn st latest
        → Step ordered s (record s { reader = accepted since s.binding.fn st latest })
    load_state_late :
        {since : ℕ} {fn : Option ChooseFn} {st : Option ℕ} {latest : Update}
        → ordered ≡ false
        → s.reader ≡ accepted since fn st latest
        → Step ordered s (record s { reader = accepted since fn s.binding.state latest })
    retry :
        {left s1 since : ℕ} {fn : Option ChooseFn} {st : Option ℕ}
        → s.reader ≡ read_state left s1 since fn st
        → ¬ ((s.binding.seq ≡ s1) × (s.binding.seq % 2 ≡ 0))
        → Step ordered s (record s { reader = trying left })
    give_up : s.reader ≡ trying 0 → Step ordered s (record s { reader = failed })

  -- A binding that holds what `u` stores, and a reader at the start of its four attempts.
  abbrev pub start : (seq : ℕ) → Update → Shared
  start seq u = record {
    binding = record { seq = seq; fn = fn_of u; state = state_of u };
    writer = idle;
    reader = trying 4;
    last = u;
  }

  pub data Reach (ordered : Bool) (seq : ℕ) (u : Update) : Shared → Type 0 where
    here : Reach ordered seq u (start seq u)
    next : {s t : Shared} → Reach ordered seq u s → Step ordered s t → Reach ordered seq u t
