-- ===== src/Routing/Registry/Invariant.antt =====
-- What holds of a `ServiceRegistry` after any sequence of calls.
use alpha_smart_router.Base.{
  refl, sym, ap, subst, Bool, List, [], ◌∷◌, length, Text, text_key, arith, length-append,
}
use alpha_smart_router.Routing.Pop.{PopList}
use alpha_smart_router.Routing.Validation.{InetPton}
use alpha_smart_router.Routing.Registry.{
  RegistryErr, Mode, add, replace, upsert, Map, ServiceRegistry, create, current, deref, mutate,
  clear, add_service, replace_service, upsert_service,
}
use alpha_smart_router.Routing.Registry.State.{
  Points, mutate-outcome, remove_service-outcome, clear-outcome,
}
use alpha_smart_router.Routing.Registry.Snapshots.{
  Effect, rejected, refused, stored, mutate-Effect, Removal, remove_service-Removal, kept, copied,
  erased,
}
use alpha_smart_router.Routing.Registry.Calls.{
  Call, adding, replacing, upserting, removing, clearing, answer, run,
}
use alpha_smart_router.Routing.Registry.ValidMap.{
  ValidMap, ValidMap-nil, outcome-ValidMap, remove_outcome-ValidMap,
}

-- The pointer is on the heap; services stand once, with valid data; and there are at most 129.
pub record IsValid (inet_pton : InetPton) (r : ServiceRegistry) : Type 0 where
  pub points : Points r
  pub valid : ValidMap inet_pton (current r)

module _ (inet_pton : InetPton) where
  Effect-Points :
      (mode : Mode) (r : ServiceRegistry) (x : RegistryErr × ServiceRegistry)
      → Effect mode r x
      → Points r
      → Points x.1
  Effect-Points mode r _ (rejected e differs) points = record {
    pointer = points.pointer;
    there = points.there;
    allocated = points.allocated;
  }
  Effect-Points mode r _ (refused e m differs) points = record {
    pointer = points.pointer;
    there = points.there;
    allocated = omega (arith, points.allocated, length-append r.heap (m ∷ []));
  }
  Effect-Points mode r _ (stored m) points = record {
    pointer = length r.heap;
    there = refl;
    allocated = omega (arith, length-append r.heap (m ∷ []));
  }

  Removal-Points :
      (r : ServiceRegistry) (x : Bool × ServiceRegistry) → Removal r x → Points r → Points x.1
  Removal-Points r _ kept points = points
  Removal-Points r _ (copied m) points = record {
    pointer = points.pointer;
    there = points.there;
    allocated = omega (arith, points.allocated, length-append r.heap (m ∷ []));
  }
  Removal-Points r _ (erased m) points = record {
    pointer = length r.heap;
    there = refl;
    allocated = omega (arith, length-append r.heap (m ∷ []));
  }

  mutate-IsValid :
      (mode : Mode) (r : ServiceRegistry) (k : Text) (pops : PopList)
      → IsValid inet_pton r
      → IsValid inet_pton (mutate inet_pton mode r k pops).1
  mutate-IsValid mode r k pops v = record {
    points = Effect-Points mode r _ (mutate-Effect inet_pton mode r k pops) v.points;
    valid =
        subst (λ m. ValidMap inet_pton m)
          (sym
            (ap (λ (x : RegistryErr × Map). x.1) (mutate-outcome inet_pton mode r k pops v.points)))
          (outcome-ValidMap inet_pton mode (current r) k pops v.valid);
  }

  clear-IsValid : (r : ServiceRegistry) → IsValid inet_pton (clear r)
  unfolding clear
  clear-IsValid r = record {
    points = record {
      pointer = length r.heap;
      there = refl;
      allocated = omega (arith, length-append r.heap ([] ∷ []));
    };
    valid = subst (λ m. ValidMap inet_pton m) (sym (clear-outcome r)) (ValidMap-nil inet_pton);
  }

  pub create-IsValid : IsValid inet_pton create
  unfolding create current deref
  create-IsValid = record {
    points = record { pointer = 0; there = refl; allocated = omega arith };
    valid = ValidMap-nil inet_pton;
  }

  pub answer-IsValid :
      (r : ServiceRegistry) (c : Call)
      → IsValid inet_pton r
      → IsValid inet_pton (answer inet_pton r c).1
  unfolding answer add_service replace_service upsert_service
  answer-IsValid r (adding k pops) v = mutate-IsValid add r k pops v
  answer-IsValid r (replacing k pops) v = mutate-IsValid replace r k pops v
  answer-IsValid r (upserting k pops) v = mutate-IsValid upsert r k pops v
  answer-IsValid r (removing k) v = record {
    points = Removal-Points r _ (remove_service-Removal r k) v.points;
    valid =
        subst (λ m. ValidMap inet_pton m)
          (sym (ap (λ (x : Bool × Map). x.1) (remove_service-outcome r k v.points)))
          (remove_outcome-ValidMap inet_pton (current r) k v.valid);
  }
  answer-IsValid r clearing v = clear-IsValid r

  run-IsValid :
      (r : ServiceRegistry) (cs : List Call)
      → IsValid inet_pton r
      → IsValid inet_pton (run inet_pton r cs).1
  unfolding run
  run-IsValid r [] v = v
  run-IsValid r (c ∷ cs) v = run-IsValid (answer inet_pton r c).1 cs (answer-IsValid r c v)

  -- After any calls on a new registry: readers find a map; every service stands in it once, under
  -- a valid id and with PoPs that `validatePops` accepts; and it has at most 129 services.
  pub registry-IsValid : (cs : List Call) → IsValid inet_pton (run inet_pton create cs).1
  registry-IsValid cs = run-IsValid create cs create-IsValid
