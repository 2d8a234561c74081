-- ===== src/Routing/Registry/Views.antt =====
-- The directory that a map stands for, before and after what the operations do to the map.
use alpha_smart_router.Base.{
  ℕ, ◌≡◌, refl, ap, ap₂, Bool, true, false, ◌||◌, Option, List, [], ◌∷◌, ltb, if◌then◌else◌, length,
  Text, text_eq, find, text_key, arith, Bool-cases, Option-cases, inl, inr, UniqueKeys,
  find-emplace, find-assign, find-erase_key, emplace_present, length-emplace, length-assign,
  length-erase_key,
}
use mathlib.Core.Path.{fun_ext}
use alpha_smart_router.Routing.Pop.{PopList}
use alpha_smart_router.Routing.Validation.{
  InetPton, max_services, max_id_len, validate_id, validate_pops,
}
use alpha_smart_router.Routing.Registry.{
  RegistryErr, ok, Mode, add, replace, upsert, Map, ServiceRegistry, current, increment,
}
use alpha_smart_router.Routing.Registry.State.{copy_outcome, outcome, remove_outcome}
use alpha_smart_router.Routing.Registry.Readers.{keys}
use alpha_smart_router.Routing.Registry.Requests.{
  Request, changing, copying, having, sizing, listing, versioning,
}
use alpha_smart_router.Routing.Registry.Requests
use alpha_smart_router.Routing.Registry.Directory.{Directory, put, drop}
use alpha_smart_router.Routing.Registry.Directory

abbrev pub view_at : Map → ℕ → Directory
view_at m v = record { lookup = λ j. find j m; count = length m; version = v }

-- The directory that a registry stands for.
abbrev pub view : ServiceRegistry → Directory
view r = view_at (current r) r.version

abbrev pub contains : Text → List Text → Bool
contains k [] = false
contains k (j ∷ l) = text_eq j k || contains k l

-- What a response says, its order aside.
abbrev pub seen : Requests.Response → Directory.Response
seen (Requests.replied reply) = Directory.replied reply
seen (Requests.pops x) = Directory.pops x
seen (Requests.there b) = Directory.there b
seen (Requests.amount n) = Directory.amount n
seen (Requests.names l) = Directory.names (λ k. contains k l) (length l)

directory-eq :
    {f g : Text → Option PopList} {n m : ℕ} (v : ℕ)
    → ((j : Text) → f j ≡ g j)
    → n ≡ m
    → ◌≡◌ {A = Directory}
        (record { lookup = f; count = n; version = v })
        (record { lookup = g; count = m; version = v })
directory-eq v same e = ap₂ (λ h c. record { lookup = h; count = c; version = v }) (fun_ext same) e

-- The version after a mutation.
abbrev pub bumped : RegistryErr → ℕ → ℕ
bumped ok v = increment v
bumped e v = v

abbrev pub outcome_at : ℕ → RegistryErr × Map → RegistryErr × Directory
outcome_at v (e, m) = (e, view_at m (bumped e v))

copy_outcome-accept :
    (mode : Mode) (m : Map) (k : Text) (x : PopList) (v : ℕ)
    → outcome_at v (copy_outcome mode m k x) ≡ Directory.accept mode (find k m) (view_at m v) k x
unfolding copy_outcome Directory.accept
copy_outcome-accept add m k x v = elim (Option-cases (find k m)) [
  | inl free ↦
      rw (free, copy_outcome, Directory.accept)
        (ap (λ d. (ok, d))
          (directory-eq (increment v) (λ j. find-emplace k j x m free)
            (omega (arith, length-emplace k x m free))))
  | inr (old, taken) ↦ rw (taken, copy_outcome, Directory.accept) refl
]
copy_outcome-accept replace m k x v = elim (Option-cases (find k m)) [
  | inl free ↦ rw (free, copy_outcome, Directory.accept) refl
  | inr (old, taken) ↦
      rw (taken, copy_outcome, Directory.accept)
        (ap (λ d. (ok, d))
          (directory-eq (increment v) (λ j. find-assign k j x m (λ e. cc)) (length-assign k x m)))
]
copy_outcome-accept upsert m k x v = elim (Option-cases (find k m)) [
  | inl free ↦
      rw (free, copy_outcome, Directory.accept)
        (ap (λ d. (ok, d))
          (directory-eq (increment v) (λ j. find-emplace k j x m free)
            (omega (arith, length-emplace k x m free))))
  | inr (old, taken) ↦
      rw (taken, copy_outcome, Directory.accept)
        (ap (λ (l : Map). (ok, view_at l (increment v))) (emplace_present k x m (λ e. cc)))
]

abbrev pub removal_at : ℕ → Bool × Map → Bool × Directory
removal_at v (removed, m) = (removed, view_at m (if removed then increment v else v))

pub remove_outcome-remove :
    (m : Map) (k : Text) (v : ℕ)
    → UniqueKeys m
    → removal_at v (remove_outcome m k) ≡ Directory.remove (find k m) (view_at m v) k
unfolding remove_outcome Directory.remove
remove_outcome-remove m k v u = elim (Option-cases (find k m)) [
  | inl absent ↦ rw (absent, remove_outcome, Directory.remove) refl
  | inr (old, present) ↦
      rw (present, remove_outcome, Directory.remove)
        (ap (λ d. (true, d))
          (directory-eq (increment v) (λ j. find-erase_key k j m u)
            (omega (arith, length-erase_key k m (λ e. cc)))))
]

pub contains-keys : (k : Text) (m : Map) → contains k (keys m) ≡ Directory.found (find k m)
unfolding find
contains-keys k [] = refl
contains-keys k ((j, x) ∷ m) = ground (arith, contains-keys k m)

module _ (inet_pton : InetPton) where
  pub outcome-mutate :
      (mode : Mode) (m : Map) (k : Text) (x : PopList) (v : ℕ)
      → outcome_at v (outcome inet_pton mode m k x)
        ≡ Directory.mutate inet_pton mode (view_at m v) k x
  unfolding outcome Directory.mutate
  outcome-mutate mode m k x v = elim (Bool-cases (validate_id k max_id_len)) [
    | inr bad ↦ rw (bad, outcome, Directory.mutate) refl
    | inl good ↦ elim (Bool-cases (validate_pops inet_pton x)) [
      | inr bad' ↦ rw (good, bad', outcome, Directory.mutate) refl
      | inl good' ↦ elim (Bool-cases (ltb max_services (length m))) [
        | inl over ↦ rw (good, good', over, outcome, Directory.mutate) refl
        | inr fits ↦
            rw (good, good', fits, outcome, Directory.mutate) (copy_outcome-accept mode m k x v)
      ]
    ]
  ]
