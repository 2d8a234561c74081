-- ===== src/Routing/Registry.antt =====
-- `ServiceRegistry` (include/alpha/routing/service_registry.hpp,
-- src/alpha/routing/service_registry.cpp): an RCU map from services to their PoPs.
-- The maps live on an explicit heap: a `shared_ptr<const Map>` is an index into it, `make_shared`
-- appends a map, and a mutation writes to its own copy before it publishes the index. The heap
-- keeps every map, of which the program frees those that nobody can reach any more.
-- The counters are `uint64_t` and wrap.
pub mod State
pub mod Snapshots
pub mod Calls
pub mod ValidMap
pub mod Invariant
pub mod Lookup
pub mod Readers
pub mod Counts
pub mod Overtaken
pub mod Writers
pub mod Requests
pub mod Directory
pub mod Views
pub mod Refine
pub mod Indistinct
pub mod Abstract
use alpha_smart_router.Base.{
  ℕ, zero, suc, ◌+◌, ◌%◌, ◌^◌, Bool, true, false, not, ◌&&◌, Option, none, some, List, [], ◌∷◌,
  ◌++◌, ltb, ◌==◌, if◌then◌else◌, length, get_elem?, set, Text, map, find, emplace, assign,
  erase_key, text_key, ◌≡◌,
}
use alpha_smart_router.Routing.Pop.{Pop, PopList}
use alpha_smart_router.Routing.Validation.{
  InetPton, max_services, max_id_len, validate_id, validate_pops,
}

-- `RegistryErr`
pub data RegistryErr : Type 0 where
  ok exists not_found invalid capacity : RegistryErr

-- `Mode`
pub data Mode : Type 0 where
  add replace upsert : Mode

abbrev pub Map : Type 0
Map = List (Text × PopList)

pub record Stats : Type 0 where
  pub adds : ℕ
  pub replaces : ℕ
  pub upserts : ℕ
  pub removes : ℕ
  pub failures : ℕ

pub record ServiceRegistry : Type 0 where
  pub heap : List Map
  pub published : Option ℕ  -- `map_`, none for null
  pub version : ℕ
  pub stats : Stats

-- `ServiceRegistry()`: an empty map, and all counters at zero.
unfoldable pub create : ServiceRegistry
create = record {
  heap = [] ∷ [];
  published = some 0;
  version = 0;
  stats = record { adds = 0; replaces = 0; upserts = 0; removes = 0; failures = 0 };
}

-- `fetch_add(1)`
abbrev pub increment : ℕ → ℕ
increment n = (n + 1) % 2 ^ 64

-- `*p`, for a pointer into the heap
unfoldable pub deref : List Map → ℕ → Map
deref heap p = elim (get_elem? heap p) [ none ↦ [] | some m ↦ m ]

-- `snapshot()`: the pointer that is published.
abbrev pub snapshot : ServiceRegistry → Option ℕ
snapshot r = r.published

-- The map that a reader finds now.
unfoldable pub current : ServiceRegistry → Map
current r = elim (snapshot r) [ none ↦ [] | some p ↦ deref r.heap p ]

unfoldable pub get_pops_copy : ServiceRegistry → Text → PopList
get_pops_copy r service_id = elim (snapshot r) [
  | none ↦ []
  | some p ↦ elim (find service_id (deref r.heap p)) [ none ↦ [] | some pops ↦ pops ]
]

unfoldable pub has_service : ServiceRegistry → Text → Bool
has_service r service_id = elim (snapshot r) [
  | none ↦ false
  | some p ↦ elim (find service_id (deref r.heap p)) [ none ↦ false | some pops ↦ true ]
]

unfoldable pub size : ServiceRegistry → ℕ
size r = elim (snapshot r) [ none ↦ 0 | some p ↦ length (deref r.heap p) ]

unfoldable pub list_services : ServiceRegistry → List Text
list_services r = elim (snapshot r) [
  | none ↦ []
  | some p ↦ map (λ (kv : Text × PopList). kv.0) (deref r.heap p)
]

-- `make_shared<Map>(m)`: the new map stands at the end of the heap.
abbrev pub make_shared : ServiceRegistry → Map → ServiceRegistry
make_shared r m = record r { heap = r.heap ++ (m ∷ []) }

-- A write to the map at `p`.
abbrev pub write : ServiceRegistry → ℕ → Map → ServiceRegistry
write r p m = record r { heap = set r.heap p m }

-- `atomic_store(&map_, p)`, and `version_.fetch_add(1)`
abbrev pub publish : ServiceRegistry → ℕ → ServiceRegistry
publish r p = record r { published = some p; version = increment r.version }

abbrev pub count_failure : ServiceRegistry → ServiceRegistry
count_failure r = record r { stats = record s { failures = increment s.failures } }
  where
    s : Stats
    s = r.stats

-- The `switch` of `mutate`, with the copy of the map at `next`; `r` is the registry with that copy.
pub mutate_copy : Mode → ServiceRegistry → ℕ → Text → PopList → RegistryErr × ServiceRegistry
mutate_copy add r next service_id pops =
    let m = deref r.heap next in
    let stored = publish (write r next (emplace service_id pops m)) next in
    let s = r.stats in
    elim (find service_id m) [
      | some old ↦ (exists, count_failure r)
      | none ↦ (ok, record stored { stats = record s { adds = increment s.adds } })
    ]
mutate_copy replace r next service_id pops =
    let m = deref r.heap next in
    let stored = publish (write r next (assign service_id pops m)) next in
    let s = r.stats in
    elim (find service_id m) [
      | none ↦ (not_found, count_failure r)
      | some old ↦ (ok, record stored { stats = record s { replaces = increment s.replaces } })
    ]
mutate_copy upsert r next service_id pops =
    let m = deref r.heap next in
    let stored = publish (write r next (emplace service_id pops m)) next in
    let s = r.stats in (ok, record stored { stats = record s { upserts = increment s.upserts } })

-- `mutate` from its `snapshot()` on.
pub mutate_snapshot :
    Mode → ServiceRegistry → Option ℕ → Text → PopList → RegistryErr × ServiceRegistry
unfolding mutate_copy
mutate_snapshot mode r none service_id pops = (invalid, count_failure r)
mutate_snapshot mode r (some snap) service_id pops =
    if ltb max_services (length (deref r.heap snap))
    then (capacity, count_failure r)
    else mutate_copy mode (make_shared r (deref r.heap snap)) (length r.heap) service_id pops

module _ (inet_pton : InetPton) where
  unfoldable pub mutate : Mode → ServiceRegistry → Text → PopList → RegistryErr × ServiceRegistry
  mutate mode r service_id pops =
      if not (validate_id service_id max_id_len)
      then (invalid, count_failure r)
      else if not (validate_pops inet_pton pops)
      then (invalid, count_failure r)
      else mutate_snapshot mode r (snapshot r) service_id pops

  unfoldable pub add_service : ServiceRegistry → Text → PopList → RegistryErr × ServiceRegistry
  unfolding mutate
  add_service = mutate add

  unfoldable pub replace_service : ServiceRegistry → Text → PopList → RegistryErr × ServiceRegistry
  unfolding mutate
  replace_service = mutate replace

  unfoldable pub upsert_service : ServiceRegistry → Text → PopList → RegistryErr × ServiceRegistry
  unfolding mutate
  upsert_service = mutate upsert

-- `removeService` from its `snapshot()` on.
pub remove_snapshot : ServiceRegistry → Option ℕ → Text → Bool × ServiceRegistry
remove_snapshot r none service_id = (false, r)
remove_snapshot r (some snap) service_id =
    let m = deref r.heap snap in
    let next = length r.heap in
    let copied = make_shared r m in
    let copy = deref copied.heap next in
    let stored = publish (write copied next (erase_key service_id copy)) next in
    let s = r.stats in
    if length m == 0 then (false, r) else elim (find service_id copy) [
      | none ↦ (false, copied)
      | some old ↦ (true, record stored { stats = record s { removes = increment s.removes } })
    ]

unfoldable pub remove_service : ServiceRegistry → Text → Bool × ServiceRegistry
unfolding remove_snapshot
remove_service r service_id = remove_snapshot r (snapshot r) service_id

unfoldable pub clear : ServiceRegistry → ServiceRegistry
clear r = publish (make_shared r []) (length r.heap)
