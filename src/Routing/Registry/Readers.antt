-- ===== src/Routing/Registry/Readers.antt =====
-- What the readers of a `ServiceRegistry` say, beside one another.
use alpha_smart_router.Base.{
  ℕ, ◌≡◌, ◌≢◌, ◌↔◌, refl, sym, ap, true, false, Option, none, some, List, [], ◌∷◌, length, Text,
  text_eq, text_eq_cases, find, text_key, Bool-cases, inl, inr, map, length-map, Fresh, UniqueKeys,
}
use mathlib.Core.Logic.Or
use mathlib.Core.List.{
  Mem, Nodup, Nodup-cons, Nodup-nil, mem-cons, mem-cons_self, mem-cons_of_mem, not-mem-nil,
}
use mathlib.Core.Bool.{Bool-set}
use alpha_smart_router.Routing.Pop.{PopList}
use alpha_smart_router.Routing.Validation.{InetPton, validate_pops}
use alpha_smart_router.Routing.Registry.{
  Map, ServiceRegistry, deref, current, get_pops_copy, has_service, size, list_services,
}
use alpha_smart_router.Routing.Registry.State.{Points, current_there}
use alpha_smart_router.Routing.Registry.ValidMap.{EntriesValid}
use alpha_smart_router.Routing.Registry.Invariant.{IsValid}
use alpha_smart_router.Routing.Registry.Directory.{found, pops_of}

abbrev pub keys : Map → List Text
keys m = map (λ (kv : Text × PopList). kv.0) m

pub length-keys : (m : Map) → length (keys m) ≡ length m
length-keys m = length-map _ m

find-Mem : (k : Text) (m : Map) → (found (find k m) ≡ true) ↔ Mem k (keys m)
unfolding find
find-Mem k [] = (λ e. cc, λ m. absurd (not-mem-nil m))
find-Mem k ((j, pops) ∷ m) = elim (text_eq_cases j k) [
  | inl (equal, same) ↦ rw (equal, same) (λ _. mem-cons_self, λ _. refl)
  | inr (unequal, differ) ↦ rw unequal (
    λ e. mem-cons_of_mem j ((find-Mem k m).0 e),
    λ among.
        Or.elim (Bool-set _ _) (mem-cons.0 among) (λ e. absurd (differ (sym e))) (find-Mem k m).1,
  )
]

Mem-not_Fresh : (k : Text) (m : Map) → Fresh k m → ¬ Mem k (keys m)
Mem-not_Fresh k [] f among = not-mem-nil among
Mem-not_Fresh k ((j, pops) ∷ m) f among =
    Or.elim (λ x y. absurd x) (mem-cons.0 among) (λ e. f.0 (sym e)) (Mem-not_Fresh k m f.1)

Nodup-keys : (m : Map) → UniqueKeys m → Nodup (keys m)
Nodup-keys [] u = Nodup-nil
Nodup-keys ((k, pops) ∷ m) u = Nodup-cons.1 (Mem-not_Fresh k m u.0, Nodup-keys m u.1)

validate_no_pops : (inet_pton : InetPton) → validate_pops inet_pton [] ≡ false
unfolding validate_pops
validate_no_pops inet_pton = refl

some_pops :
    (inet_pton : InetPton) (k : Text) (m : Map) → EntriesValid inet_pton m → find k m ≢ some []
unfolding find
some_pops inet_pton k [] v e = cc
some_pops inet_pton k ((j, []) ∷ m) v e = cc (v.1, validate_no_pops inet_pton)
some_pops inet_pton k ((j, p ∷ pops) ∷ m) v e = elim (Bool-cases (text_eq j k)) [
  | inl equal ↦ cc (rw (equal, find) at e)
  | inr unequal ↦ some_pops inet_pton k m v.2 (rw (unequal, find) at e)
]

no_pops : (o : Option PopList) → o ≢ some [] → (pops_of o ≡ []) ↔ (found o ≡ false)
no_pops none d = (λ _. refl, λ _. refl)
no_pops (some pops) d = (λ e. absurd (d (ap some e)), λ e. cc)

-- The readers through the map that they find.
pub readers_there :
    (r : ServiceRegistry) (snap : Option ℕ)
    → Points r
    → r.published ≡ snap
    → (size r ≡ length (current r))
      × (list_services r ≡ keys (current r))
      × ((k : Text)
          → (has_service r k ≡ found (find k (current r)))
            × (get_pops_copy r k ≡ pops_of (find k (current r))))
unfolding size list_services has_service get_pops_copy
readers_there r none points e = cc (points.there)
readers_there r (some p) points e =
    rw (current_there r e, e)
      (refl, refl, λ k. (ends (find k (deref r.heap p)), ends' (find k (deref r.heap p))))
  where
    ends : (o : Option PopList) → (elim o [ none ↦ false | some pops ↦ true ]) ≡ found o
    ends none = refl
    ends (some pops) = refl

    ends' : (o : Option PopList) → (elim o [ none ↦ [] | some pops ↦ pops ]) ≡ pops_of o
    ends' none = refl
    ends' (some pops) = refl

-- On a registry that satisfies its invariant: `size` is the length of `listServices`, which lists
-- no service twice; `hasService` is true of exactly the services it lists; and `getPopsCopy` is
-- empty for exactly the others.
pub readers_agree :
    (inet_pton : InetPton) (r : ServiceRegistry)
    → IsValid inet_pton r
    → (size r ≡ length (list_services r))
      × Nodup (list_services r)
      × ((k : Text)
          → ((has_service r k ≡ true) ↔ Mem k (list_services r))
            × ((get_pops_copy r k ≡ []) ↔ (has_service r k ≡ false)))
readers_agree inet_pton r v =
    let (sizes, lists, lookups) = readers_there r r.published v.points refl in
    rw (sizes, lists)
      (
        sym (length-keys (current r)),
        Nodup-keys (current r) v.valid.unique,
        λ k.
            let (has, copy) = lookups k in
            rw (has, copy)
              (
                find-Mem k (current r),
                no_pops (find k (current r)) (some_pops inet_pton k (current r) v.valid.entries),
              ),
      )
