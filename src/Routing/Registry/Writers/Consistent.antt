-- ===== src/Routing/Registry/Writers/Consistent.antt =====
-- What readers find of a `ServiceRegistry` while any number of writers work on it.
use alpha_smart_router.Base.{
  ℕ, suc, ◌≤◌, ◌<◌, ◌≡◌, ◌≢◌, refl, ◌∙◌, sym, ap, subst, none, some, List, [], ◌∷◌, ◌++◌, arith,
  length, length-append, dec_lt, Bool,
}
use mathlib.Core.List.{append-nil, append_assoc}
use alpha_smart_router.Routing.Validation.{InetPton}
use alpha_smart_router.Routing.Registry.{RegistryErr, Map, create, current, deref}
use alpha_smart_router.Routing.Registry.State.{deref-kept, deref-end, current_there}
use alpha_smart_router.Routing.Registry.ValidMap.{
  ValidMap, ValidMap-nil, outcome-ValidMap, remove_outcome-ValidMap,
}
use alpha_smart_router.Routing.Registry.Writers.{
  Change, mutated, removed, cleared, Writer, storing, versioning, counting, failing, Shared,
  with_map, Step, mutating, refusing, removing, clearing, store, count_version, count_change, fail,
  Reach, start, here, next,
}

-- The maps that the writers are about to store are among the first `n`.
abbrev Allocated : ℕ → List Writer → Type 0
Allocated n [] = Unit
Allocated n (storing p change ∷ ws) = (p < n) × Allocated n ws
Allocated n (w ∷ ws) = Allocated n ws

Allocated-mono : (n m : ℕ) (ws : List Writer) → n ≤ m → Allocated n ws → Allocated m ws
Allocated-mono n m [] le a = tt
Allocated-mono n m (storing p change ∷ ws) le (lt, a) = (omega arith, Allocated-mono n m ws le a)
Allocated-mono n m (versioning change ∷ ws) le a = Allocated-mono n m ws le a
Allocated-mono n m (counting change ∷ ws) le a = Allocated-mono n m ws le a
Allocated-mono n m (failing ∷ ws) le a = Allocated-mono n m ws le a

-- A list of writers before others.
Allocated-append :
    (n : ℕ) (l r : List Writer) → Allocated n (l ++ r) → Allocated n l × Allocated n r
Allocated-append n [] r a = (tt, a)
Allocated-append n (storing p change ∷ l) r (lt, a) =
    let (left, right) = Allocated-append n l r a in ((lt, left), right)
Allocated-append n (versioning change ∷ l) r a = Allocated-append n l r a
Allocated-append n (counting change ∷ l) r a = Allocated-append n l r a
Allocated-append n (failing ∷ l) r a = Allocated-append n l r a

append-Allocated :
    (n : ℕ) (l r : List Writer) → Allocated n l → Allocated n r → Allocated n (l ++ r)
append-Allocated n [] r left right = right
append-Allocated n (storing p change ∷ l) r (lt, left) right =
    (lt, append-Allocated n l r left right)
append-Allocated n (versioning change ∷ l) r left right = append-Allocated n l r left right
append-Allocated n (counting change ∷ l) r left right = append-Allocated n l r left right
append-Allocated n (failing ∷ l) r left right = append-Allocated n l r left right

module _ (inet_pton : InetPton) where
  -- The published pointer is on the heap, and so are those to be published; and every map of the
  -- heap is valid.
  record Inv (s : Shared) : Type 0 where
    pointer : ℕ
    there : s.registry.published ≡ some pointer
    allocated : pointer < length s.registry.heap
    pending : Allocated (length s.registry.heap) s.writers
    maps : (p : ℕ) → p < length s.registry.heap → ValidMap inet_pton (deref s.registry.heap p)

  current-ValidMap : (s : Shared) → Inv s → ValidMap inet_pton (current s.registry)
  current-ValidMap s inv =
      subst (ValidMap inet_pton) (sym (current_there s.registry inv.there))
        (inv.maps inv.pointer inv.allocated)

  with_map-Inv :
      (s : Shared) (m : Map) (change : Change)
      → Inv s
      → ValidMap inet_pton m
      → Inv (with_map s m change)
  with_map-Inv s m change inv v =
      let heap = s.registry.heap in
      let grown : length (heap ++ (m ∷ [])) ≡ suc (length heap) =
        omega (arith, length-append heap (m ∷ [])) in
      record {
        pointer = inv.pointer;
        there = inv.there;
        allocated = omega (arith, grown, inv.allocated);
        pending = (
          omega (arith, grown),
          Allocated-mono (length heap) _ s.writers (omega (arith, grown)) inv.pending,
        );
        maps = λ p lt. elim (dec_lt p (length heap)) [
          | yes old ↦
              subst (ValidMap inet_pton) (sym (deref-kept heap (m ∷ []) p old)) (inv.maps p old)
          | no new ↦
              let last : length heap ≡ p = omega (arith, grown, lt, new) in
              subst (λ (k : ℕ). ValidMap inet_pton (deref (heap ++ (m ∷ [])) k)) last
                (subst (ValidMap inet_pton) (sym (deref-end heap m)) v)
        ];
      }

  Step-Inv : {s t : Shared} → Step inet_pton s t → Inv s → Inv t
  Step-Inv {s} (mutating mode k pops m e) inv = with_map-Inv s m (mutated mode) inv (
      subst (ValidMap inet_pton) (ap (λ (x : RegistryErr × Map). x.1) e)
        (outcome-ValidMap inet_pton mode (current s.registry) k pops (current-ValidMap s inv)))
  Step-Inv {s} (refusing mode k pops e m bad refused) inv = record {
    pointer = inv.pointer;
    there = inv.there;
    allocated = inv.allocated;
    pending = inv.pending;
    maps = inv.maps;
  }
  Step-Inv {s} (removing k m e) inv = with_map-Inv s m removed inv (
      subst (ValidMap inet_pton) (ap (λ (x : Bool × Map). x.1) e)
        (remove_outcome-ValidMap inet_pton (current s.registry) k (current-ValidMap s inv)))
  Step-Inv {s} clearing inv = with_map-Inv s [] cleared inv (ValidMap-nil inet_pton)
  Step-Inv {s} (store l r p change e) inv =
      let n = length s.registry.heap in
      let (left, (lt, right)) =
        Allocated-append n l (storing p change ∷ r) (subst (Allocated n) e inv.pending) in
      record {
        pointer = p;
        there = refl;
        allocated = lt;
        pending = append-Allocated n l (versioning change ∷ r) left right;
        maps = inv.maps;
      }
  Step-Inv {s} (count_version l r change e) inv =
      let n = length s.registry.heap in
      let (left, right) =
        Allocated-append n l (versioning change ∷ r) (subst (Allocated n) e inv.pending) in
      record {
        pointer = inv.pointer;
        there = inv.there;
        allocated = inv.allocated;
        pending = append-Allocated n l (counting change ∷ r) left right;
        maps = inv.maps;
      }
  Step-Inv {s} (count_change l r change e) inv =
      let n = length s.registry.heap in
      let (left, right) =
        Allocated-append n l (counting change ∷ r) (subst (Allocated n) e inv.pending) in
      record {
        pointer = inv.pointer;
        there = inv.there;
        allocated = inv.allocated;
        pending = append-Allocated n l r left right;
        maps = inv.maps;
      }
  Step-Inv {s} (fail l r e) inv =
      let n = length s.registry.heap in
      let (left, right) = Allocated-append n l (failing ∷ r) (subst (Allocated n) e inv.pending) in
      record {
        pointer = inv.pointer;
        there = inv.there;
        allocated = inv.allocated;
        pending = append-Allocated n l r left right;
        maps = inv.maps;
      }

  Reach-Inv : {s t : Shared} → Reach inet_pton s t → Inv s → Inv t
  Reach-Inv here inv = inv
  Reach-Inv (next r st) inv = Step-Inv st (Reach-Inv r inv)

  start-Inv : Inv start
  unfolding create deref
  start-Inv = record {
    pointer = 0;
    there = refl;
    allocated = omega arith;
    pending = tt;
    maps = λ p lt. only p (omega arith);
  }
    where
      only : (p : ℕ) → p ≡ 0 → ValidMap inet_pton (deref ([] ∷ []) p)
      only p e =
          subst (λ (k : ℕ). ValidMap inet_pton (deref ([] ∷ []) k)) (sym e) (ValidMap-nil inet_pton)

  -- The heap grows at its end.
  Step-grows :
      {s t : Shared}
      → Step inet_pton s t
      → (more : List Map) × (t.registry.heap ≡ s.registry.heap ++ more)
  Step-grows (mutating mode k pops m e) = (m ∷ [], refl)
  Step-grows (refusing mode k pops e m bad refused) = ([], sym (append-nil _))
  Step-grows (removing k m e) = (m ∷ [], refl)
  Step-grows clearing = ([] ∷ [], refl)
  Step-grows (store l r p change e) = ([], sym (append-nil _))
  Step-grows (count_version l r change e) = ([], sym (append-nil _))
  Step-grows (count_change l r change e) = ([], sym (append-nil _))
  Step-grows (fail l r e) = ([], sym (append-nil _))

  Reach-grows :
      {s t : Shared}
      → Reach inet_pton s t
      → (more : List Map) × (t.registry.heap ≡ s.registry.heap ++ more)
  Reach-grows here = ([], sym (append-nil _))
  Reach-grows {s} (next r st) =
      let (more, e) = Reach-grows r in
      let (more', e') = Step-grows st in
      (more ++ more', e' ∙ ap (λ h. h ++ more') e ∙ append_assoc s.registry.heap more more')

  -- From a new registry, with any number of writers that mutate, remove and clear, and whatever the
  -- order of their accesses: readers always find a map, in which every service stands once, under a
  -- valid id and with PoPs that `validatePops` accepts, and which has at most 129 services; and a
  -- map of the heap, which a reader may hold, stays what it is, whatever the writers do later.
  pub Reach-consistent :
      {s t : Shared}
      → Reach inet_pton start s
      → Reach inet_pton s t
      → (s.registry.published ≢ none)
        × ValidMap inet_pton (current s.registry)
        × ((p : ℕ) → p < length s.registry.heap → deref t.registry.heap p ≡ deref s.registry.heap p)
  Reach-consistent {s} r later =
      let inv = Reach-Inv r start-Inv in
      let (more, grown) = Reach-grows later in
      (
        λ null. cc (inv.there, null),
        current-ValidMap s inv,
        λ p lt. ap (λ h. deref h p) grown ∙ deref-kept s.registry.heap more p lt,
      )
