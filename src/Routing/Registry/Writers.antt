-- ===== src/Routing/Registry/Writers.antt =====
-- Any number of writers of a `ServiceRegistry` at once (src/alpha/routing/service_registry.cpp,
-- `mutate`, `removeService`, `clear`): between its snapshot and its store a writer works on a map of
-- its own, of which `outcome` says what it becomes; the store, the version and the counters are
-- accesses of the registry, one at a time. A removal that finds no service makes none.
pub mod Alone
pub mod Consistent
mod Tests
use alpha_smart_router.Base.{ℕ, ◌≡◌, ◌≢◌, true, some, List, [], ◌∷◌, ◌++◌, length, Text}
use alpha_smart_router.Routing.Pop.{PopList}
use alpha_smart_router.Routing.Validation.{InetPton}
use alpha_smart_router.Routing.Registry.{
  RegistryErr, ok, Mode, Map, Stats, ServiceRegistry, create, current, increment, make_shared,
  count_failure,
}
use alpha_smart_router.Routing.Registry.State.{outcome, remove_outcome}
use alpha_smart_router.Routing.Registry.Snapshots.{count_success, count_removal}

-- What a writer has done to its map.
pub data Change : Type 0 where
  mutated : Mode → Change
  removed cleared : Change

-- Where a writer stands: before its store of the map, before it counts the version, before it
-- counts itself, or before it counts a failure.
pub data Writer : Type 0 where
  storing : (next : ℕ) → Change → Writer
  versioning counting : Change → Writer
  failing : Writer

-- The counter of a change, of which `clear` has none.
abbrev pub counted : Change → Stats → Stats
counted (mutated mode) s = count_success mode s
counted removed s = count_removal s
counted cleared s = s

pub record Shared : Type 0 where
  pub registry : ServiceRegistry
  pub writers : List Writer

-- The map of a writer, with the writer before its store.
abbrev pub with_map : Shared → Map → Change → Shared
with_map s m change = record {
  registry = make_shared (s.registry) m;
  writers = storing (length s.registry.heap) change ∷ s.writers;
}

-- A new registry.
abbrev pub start : Shared
start = record { registry = create; writers = [] }

module _ (inet_pton : InetPton) where
  -- A writer begins with the map that is published, or makes its next access.
  pub data Step (s : Shared) : Shared → Type 0 where
    mutating :
        (mode : Mode) (service_id : Text) (pops : PopList) (next : Map)
        → outcome inet_pton mode (current s.registry) service_id pops ≡ (ok, next)
        → Step s (with_map s next (mutated mode))
    refusing :
        (mode : Mode) (service_id : Text) (pops : PopList) (e : RegistryErr) (next : Map)
        → e ≢ ok
        → outcome inet_pton mode (current s.registry) service_id pops ≡ (e, next)
        → Step s (record s { writers = failing ∷ s.writers })
    removing :
        (service_id : Text) (next : Map)
        → remove_outcome (current s.registry) service_id ≡ (true, next)
        → Step s (with_map s next removed)
    clearing : Step s (with_map s [] cleared)
    store :
        (l r : List Writer) (next : ℕ) (change : Change)
        → s.writers ≡ l ++ (storing next change ∷ r)
        → Step s (record {
          registry = record (s.registry) { published = some next };
          writers = l ++ (versioning change ∷ r);
        })
    count_version :
        (l r : List Writer) (change : Change)
        → s.writers ≡ l ++ (versioning change ∷ r)
        → Step s (record {
          registry = record (s.registry) { version = increment s.registry.version };
          writers = l ++ (counting change ∷ r);
        })
    count_change :
        (l r : List Writer) (change : Change)
        → s.writers ≡ l ++ (counting change ∷ r)
        → Step s (record {
          registry = record (s.registry) { stats = counted change (s.registry.stats) };
          writers = l ++ r;
        })
    fail :
        (l r : List Writer)
        → s.writers ≡ l ++ (failing ∷ r)
        → Step s (record { registry = count_failure (s.registry); writers = l ++ r })

  pub data Reach (s : Shared) : Shared → Type 0 where
    here : Reach s s
    next : {t u : Shared} → Reach s t → Step t u → Reach s u
