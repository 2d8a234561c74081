-- ===== src/Routing/Registry/State.antt =====
-- The map that a `ServiceRegistry` publishes, and what a mutation does to it, the heap aside.
use alpha_smart_router.Base.{
  ℕ, ◌<◌, ◌≡◌, refl, ◌∙◌, sym, ap, Bool, true, false, not, Option, none, some, List, [], ◌∷◌, ◌++◌,
  ltb, ◌==◌, if◌then◌else◌, length, set, Text, find, emplace, assign, erase_key, text_key, arith,
  Bool-cases, Option-cases, get_elem?-append_length, get_elem?-append_lt, inl, inr, ==_iff,
}
use alpha_smart_router.Routing.Pop.{PopList}
use alpha_smart_router.Routing.Validation.{
  InetPton, max_services, max_id_len, validate_id, validate_pops,
}
use alpha_smart_router.Routing.Registry.{
  RegistryErr, ok, exists, not_found, invalid, capacity, Mode, add, replace, upsert, Map,
  ServiceRegistry, Stats, deref, current, count_failure, make_shared, mutate_copy, mutate_snapshot,
  mutate, remove_snapshot, remove_service, clear,
}

-- The published pointer is one of the heap.
pub record Points (r : ServiceRegistry) : Type 0 where
  pub pointer : ℕ
  pub there : r.published ≡ some pointer
  pub allocated : pointer < length r.heap

pub set-end {ℓ} :
    {A : Type ℓ} (xs : List A) (x y : A) → set (xs ++ (x ∷ [])) (length xs) y ≡ xs ++ (y ∷ [])
set-end [] x y = refl
set-end (z ∷ xs) x y = ap (λ l. z ∷ l) (set-end xs x y)

pub deref-end : (heap : List Map) (m : Map) → deref (heap ++ (m ∷ [])) (length heap) ≡ m
unfolding deref
deref-end heap m = rw (get_elem?-append_length heap [] m, deref)

pub deref-kept :
    (heap more : List Map) (p : ℕ) → p < length heap → deref (heap ++ more) p ≡ deref heap p
unfolding deref
deref-kept heap more p lt = rw (get_elem?-append_lt heap more p lt, deref)

pub current_there :
    (r : ServiceRegistry) {p : ℕ} → r.published ≡ some p → current r ≡ deref r.heap p
unfolding current
current_there r e = rw (e, current)

-- What a mutation does to the published map `m`.
unfoldable pub copy_outcome : Mode → Map → Text → PopList → RegistryErr × Map
copy_outcome add m k pops = elim (find k m) [
  | some old ↦ (exists, m)
  | none ↦ (ok, emplace k pops m)
]
copy_outcome replace m k pops = elim (find k m) [
  | none ↦ (not_found, m)
  | some old ↦ (ok, assign k pops m)
]
copy_outcome upsert m k pops = (ok, emplace k pops m)

unfoldable pub outcome : InetPton → Mode → Map → Text → PopList → RegistryErr × Map
unfolding copy_outcome
outcome inet_pton mode m k pops =
    if not (validate_id k max_id_len)
    then (invalid, m)
    else if not (validate_pops inet_pton pops)
    then (invalid, m)
    else if ltb max_services (length m)
    then (capacity, m)
    else copy_outcome mode m k pops

-- A copy that is not published leaves the published map alone.
pub current-unpublished :
    (r : ServiceRegistry) (m : Map) (v : ℕ) (s : Stats)
    → Points r
    → current (record r { heap = r.heap ++ (m ∷ []); version = v; stats = s }) ≡ current r
unfolding current
current-unpublished r m v s points =
    rw (points.there, current) (deref-kept r.heap (m ∷ []) points.pointer points.allocated)

-- What is written to a copy and published is what readers find.
pub current-published :
    (r : ServiceRegistry) (m x : Map) (v : ℕ) (s : Stats)
    → current (record r {
      heap = set (r.heap ++ (m ∷ [])) (length r.heap) x;
      published = some (length r.heap);
      version = v;
      stats = s;
    })
      ≡ x
unfolding current
current-published r m x v s = rw set-end (deref-end r.heap x)

mutate_copy-outcome :
    (mode : Mode) (r : ServiceRegistry) (k : Text) (pops : PopList)
    → Points r
    → let (e, r') = mutate_copy mode (make_shared r (current r)) (length r.heap) k pops in
      (e, current r') ≡ copy_outcome mode (current r) k pops
unfolding mutate_copy copy_outcome
mutate_copy-outcome add r k pops points =
    rw (deref-end r.heap (current r), mutate_copy)
      (elim (Option-cases (find k (current r))) [
        | inl free ↦
            rw (free, copy_outcome)
              (ap (λ m. (ok, m))
                (current-published r _ _ _ _ ∙ ap (emplace k pops) (deref-end r.heap (current r))))
        | inr (old, taken) ↦
            rw (taken, copy_outcome) (ap (λ m. (exists, m)) (current-unpublished r _ _ _ points))
      ])
mutate_copy-outcome replace r k pops points =
    rw (deref-end r.heap (current r), mutate_copy)
      (elim (Option-cases (find k (current r))) [
        | inl free ↦
            rw (free, copy_outcome) (ap (λ m. (not_found, m)) (current-unpublished r _ _ _ points))
        | inr (old, taken) ↦
            rw (taken, copy_outcome)
              (ap (λ m. (ok, m))
                (current-published r _ _ _ _ ∙ ap (assign k pops) (deref-end r.heap (current r))))
      ])
mutate_copy-outcome upsert r k pops points =
    rw (deref-end r.heap (current r), mutate_copy) (ap (λ m. (ok, m)) (current-published r _ _ _ _))

current-failed : (r : ServiceRegistry) → current (count_failure r) ≡ current r
unfolding current
current-failed r = refl

pub mutate_snapshot-outcome :
    (inet_pton : InetPton) (mode : Mode) (r : ServiceRegistry) (snap : Option ℕ) (k : Text)
    (pops : PopList)
    → Points r
    → r.published ≡ snap
    → let (e, r') = mutate_snapshot mode r snap k pops in
      (e, current r') ≡ (
        if ltb max_services (length (current r))
        then (capacity, current r)
        else copy_outcome mode (current r) k pops)
unfolding mutate_snapshot
mutate_snapshot-outcome inet_pton mode r none k pops points e = cc (points.there)
mutate_snapshot-outcome inet_pton mode r (some snap) k pops points e =
    rw (← current_there r e, mutate_snapshot)
      (elim (Bool-cases (ltb max_services (length (current r)))) [
        | inl over ↦ rw over (ap (λ m. (capacity, m)) (current-failed r))
        | inr fits ↦ rw fits (mutate_copy-outcome mode r k pops points)
      ])

-- A mutation returns the code, and publishes the map, that `outcome` says: the heap, the copy and
-- the pointers make no difference to what readers find.
pub mutate-outcome :
    (inet_pton : InetPton) (mode : Mode) (r : ServiceRegistry) (k : Text) (pops : PopList)
    → Points r
    → let (e, r') = mutate inet_pton mode r k pops in
      (e, current r') ≡ outcome inet_pton mode (current r) k pops
unfolding mutate outcome
mutate-outcome inet_pton mode r k pops points = elim (Bool-cases (validate_id k max_id_len)) [
  | inr bad ↦ rw (bad, mutate, outcome) (ap (λ m. (invalid, m)) (current-failed r))
  | inl good ↦ elim (Bool-cases (validate_pops inet_pton pops)) [
    | inr bad' ↦ rw (good, bad', mutate, outcome) (ap (λ m. (invalid, m)) (current-failed r))
    | inl good' ↦
        rw (good, good', mutate, outcome)
          (mutate_snapshot-outcome inet_pton mode r r.published k pops points refl)
  ]
]

-- What `removeService` returns, and what it does to the published map.
unfoldable pub remove_outcome : Map → Text → Bool × Map
remove_outcome m k = elim (find k m) [ none ↦ (false, m) | some old ↦ (true, erase_key k m) ]

empty_find : (m : Map) (k : Text) → length m ≡ 0 → find k m ≡ none
unfolding find
empty_find [] k e = refl
empty_find (x ∷ m) k e = absurd (omega (arith, e))

remove_snapshot-outcome :
    (r : ServiceRegistry) (snap : Option ℕ) (k : Text)
    → Points r
    → r.published ≡ snap
    → let (done, r') = remove_snapshot r snap k in (done, current r') ≡ remove_outcome (current r) k
unfolding remove_snapshot remove_outcome
remove_snapshot-outcome r none k points e = cc (points.there)
remove_snapshot-outcome r (some snap) k points e =
    rw (← current_there r e, deref-end r.heap (current r), remove_snapshot)
      (elim (Bool-cases (length (current r) == 0)) [
        | inl void ↦ rw (void, empty_find (current r) k ((==_iff _ 0).0 void), remove_outcome) refl
        | inr full ↦ elim (Option-cases (find k (current r))) [
          | inl absent ↦
              rw (full, absent, remove_outcome)
                (ap (λ m. (false, m)) (current-unpublished r _ _ _ points))
          | inr (old, there) ↦
              rw (full, there, remove_outcome)
                (ap (λ m. (true, m))
                  (current-published r _ _ _ _
                    ∙ ap (erase_key k) (deref-end r.heap _ ∙ sym (current_there r e))))
        ]
      ])

-- `removeService` returns, and publishes, what `remove_outcome` says.
pub remove_service-outcome :
    (r : ServiceRegistry) (k : Text)
    → Points r
    → let (done, r') = remove_service r k in (done, current r') ≡ remove_outcome (current r) k
unfolding remove_service
remove_service-outcome r k points = remove_snapshot-outcome r r.published k points refl

pub clear-outcome : (r : ServiceRegistry) → current (clear r) ≡ []
unfolding current clear
clear-outcome r = deref-end r.heap []
