-- ===== src/Routing/Registry/Snapshots.antt =====
-- How the operations of a `ServiceRegistry` treat the maps that readers may still hold, and what
-- they count.
use alpha_smart_router.Base.{
  ℕ, ◌≢◌, Bool, true, false, Option, none, some, [], ◌∷◌, ◌++◌, ltb, ◌==◌, length, Text, find,
  emplace, assign, erase_key, text_key, Bool-cases, Option-cases, inl, inr,
}
use alpha_smart_router.Routing.Pop.{PopList}
use alpha_smart_router.Routing.Validation.{
  InetPton, max_services, max_id_len, validate_id, validate_pops,
}
use alpha_smart_router.Routing.Registry.{
  RegistryErr, ok, exists, not_found, invalid, capacity, Mode, add, replace, upsert, Map,
  ServiceRegistry, Stats, deref, make_shared, count_failure, mutate_copy, mutate_snapshot, mutate,
  remove_snapshot, remove_service, increment,
}
use alpha_smart_router.Routing.Registry.State.{set-end}

abbrev pub count_success : Mode → Stats → Stats
count_success add s = record s { adds = increment s.adds }
count_success replace s = record s { replaces = increment s.replaces }
count_success upsert s = record s { upserts = increment s.upserts }

abbrev pub count_removal : Stats → Stats
count_removal s = record s { removes = increment s.removes }

-- The three ways a mutation ends.
pub data Effect (mode : Mode) (r : ServiceRegistry) : RegistryErr × ServiceRegistry → Type 0 where
  rejected : (e : RegistryErr) → e ≢ ok → Effect mode r (e, count_failure r)
  refused :
      (e : RegistryErr) (m : Map) → e ≢ ok → Effect mode r (e, count_failure (make_shared r m))
  stored :
      (x : Map)
      → Effect mode r (
        ok,
        record r {
          heap = r.heap ++ (x ∷ []);
          published = some (length r.heap);
          version = increment r.version;
          stats = count_success mode r.stats;
        },
      )

mutate_copy-Effect :
    (mode : Mode) (r : ServiceRegistry) (m : Map) (k : Text) (pops : PopList)
    → Effect mode r (mutate_copy mode (make_shared r m) (length r.heap) k pops)
unfolding mutate_copy
mutate_copy-Effect add r m k pops =
    let copy = deref (r.heap ++ (m ∷ [])) (length r.heap) in
    elim (Option-cases (find k copy)) [
      | inl free ↦ rw (free, mutate_copy, set-end) (stored (emplace k pops copy))
      | inr (old, taken) ↦ rw (taken, mutate_copy) (refused exists m (λ e. cc))
    ]
mutate_copy-Effect replace r m k pops =
    let copy = deref (r.heap ++ (m ∷ [])) (length r.heap) in
    elim (Option-cases (find k copy)) [
      | inl free ↦ rw (free, mutate_copy) (refused not_found m (λ e. cc))
      | inr (old, taken) ↦ rw (taken, mutate_copy, set-end) (stored (assign k pops copy))
    ]
mutate_copy-Effect upsert r m k pops =
    let copy = deref (r.heap ++ (m ∷ [])) (length r.heap) in
    rw set-end (stored (emplace k pops copy))

mutate_snapshot-Effect :
    (mode : Mode) (r : ServiceRegistry) (snap : Option ℕ) (k : Text) (pops : PopList)
    → Effect mode r (mutate_snapshot mode r snap k pops)
unfolding mutate_snapshot
mutate_snapshot-Effect mode r none k pops = rejected invalid (λ e. cc)
mutate_snapshot-Effect mode r (some snap) k pops =
    elim (Bool-cases (ltb max_services (length (deref r.heap snap)))) [
      | inl over ↦ rw (over, mutate_snapshot) (rejected capacity (λ e. cc))
      | inr fits ↦ rw (fits, mutate_snapshot) (mutate_copy-Effect mode r (deref r.heap snap) k pops)
    ]

pub mutate-Effect :
    (inet_pton : InetPton) (mode : Mode) (r : ServiceRegistry) (k : Text) (pops : PopList)
    → Effect mode r (mutate inet_pton mode r k pops)
unfolding mutate
mutate-Effect inet_pton mode r k pops = elim (Bool-cases (validate_id k max_id_len)) [
  | inr bad ↦ rw (bad, mutate) (rejected invalid (λ e. cc))
  | inl good ↦ elim (Bool-cases (validate_pops inet_pton pops)) [
    | inr bad' ↦ rw (good, bad', mutate) (rejected invalid (λ e. cc))
    | inl good' ↦ rw (good, good', mutate) (mutate_snapshot-Effect mode r r.published k pops)
  ]
]

-- The three ways a removal ends.
pub data Removal (r : ServiceRegistry) : Bool × ServiceRegistry → Type 0 where
  kept : Removal r (false, r)
  copied : (m : Map) → Removal r (false, make_shared r m)
  erased :
      (x : Map)
      → Removal r (
        true,
        record r {
          heap = r.heap ++ (x ∷ []);
          published = some (length r.heap);
          version = increment r.version;
          stats = count_removal r.stats;
        },
      )

remove_snapshot-Removal :
    (r : ServiceRegistry) (snap : Option ℕ) (k : Text) → Removal r (remove_snapshot r snap k)
unfolding remove_snapshot
remove_snapshot-Removal r none k = kept
remove_snapshot-Removal r (some snap) k =
    let m = deref r.heap snap in
    let copy = deref (r.heap ++ (m ∷ [])) (length r.heap) in
    elim (Bool-cases (length m == 0)) [
      | inl void ↦ rw (void, remove_snapshot) kept
      | inr full ↦ elim (Option-cases (find k copy)) [
        | inl absent ↦ rw (full, absent, remove_snapshot) (copied m)
        | inr (old, there) ↦ rw (full, there, remove_snapshot, set-end) (erased (erase_key k copy))
      ]
    ]

pub remove_service-Removal : (r : ServiceRegistry) (k : Text) → Removal r (remove_service r k)
unfolding remove_service
remove_service-Removal r k = remove_snapshot-Removal r r.published k
