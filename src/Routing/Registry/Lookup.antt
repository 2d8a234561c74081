-- ===== src/Routing/Registry/Lookup.antt =====
-- What readers find in a `ServiceRegistry`, before and after each operation.
use alpha_smart_router.Base.{
  ℕ, ◌≡◌, ◌≢◌, ◌↔◌, refl, sym, ap, subst, Bool, true, false, not, ◌&&◌, Option, none, some, ltb,
  if◌then◌else◌, length, Text, text_eq, text_eq_cases, find, text_key, Bool-cases, Option-cases,
  inl, inr, UniqueKeys, find-emplace, find-assign, find-erase_key, emplace_present,
}
use alpha_smart_router.Routing.Pop.{PopList}
use alpha_smart_router.Routing.Validation.{
  InetPton, max_services, max_id_len, validate_id, validate_pops,
}
use alpha_smart_router.Routing.Registry.{
  RegistryErr, ok, exists, not_found, invalid, capacity, Mode, add, replace, upsert, Map,
  ServiceRegistry, current, mutate, remove_service,
}
use alpha_smart_router.Routing.Registry.State.{
  Points, copy_outcome, outcome, mutate-outcome, remove_outcome, remove_service-outcome,
}
use alpha_smart_router.Routing.Registry.Invariant.{IsValid}

-- What a mutation with valid input should answer, from what the service has.
abbrev pub answers_valid : Mode → Option PopList → RegistryErr
answers_valid add none = ok
answers_valid add (some pops) = exists
answers_valid replace none = not_found
answers_valid replace (some pops) = ok
answers_valid upsert old = ok

-- What a mutation should answer, from whether its input is valid, how many services there are, and
-- what the service has.
abbrev pub answers : Mode → Bool → Bool → ℕ → Option PopList → RegistryErr
answers mode id fields n old =
    if not id
    then invalid
    else if not fields
    then invalid
    else if ltb max_services n
    then capacity
    else answers_valid mode old

-- Whether a mutation that answers a code stores its PoPs: `upsert` does not where the service has
-- PoPs already.
abbrev pub stores : Mode → RegistryErr → Option PopList → Bool
stores upsert ok (some old) = false
stores upsert ok none = true
stores add ok old = true
stores replace ok old = true
stores mode e old = false

module _ (inet_pton : InetPton) where
  -- Of an answer and a map: what `answers` and `stores` say.
  abbrev Agrees : Mode → Map → Text → PopList → RegistryErr × Map → Type 0
  Agrees mode m k pops (e, m') =
      (e
        ≡ answers mode (validate_id k max_id_len) (validate_pops inet_pton pops) (length m)
            (find k m))
      × ((j : Text)
          → find j m' ≡ (if stores mode e (find k m) && text_eq k j then some pops else find j m))

  copy_outcome-Agrees :
      (mode : Mode) (m : Map) (k : Text) (pops : PopList)
      → validate_id k max_id_len ≡ true
      → validate_pops inet_pton pops ≡ true
      → ltb max_services (length m) ≡ false
      → Agrees mode m k pops (copy_outcome mode m k pops)
  unfolding copy_outcome
  copy_outcome-Agrees add m k pops id fields fits = elim (Option-cases (find k m)) [
    | inl free ↦ rw (free, id, fields, fits, copy_outcome) (refl, λ j. find-emplace k j pops m free)
    | inr (old, taken) ↦ rw (taken, id, fields, fits, copy_outcome) (refl, λ j. refl)
  ]
  copy_outcome-Agrees replace m k pops id fields fits = elim (Option-cases (find k m)) [
    | inl free ↦ rw (free, id, fields, fits, copy_outcome) (refl, λ j. refl)
    | inr (old, taken) ↦
        rw (taken, id, fields, fits, copy_outcome) (refl, λ j. find-assign k j pops m (λ e. cc))
  ]
  copy_outcome-Agrees upsert m k pops id fields fits = elim (Option-cases (find k m)) [
    | inl free ↦ rw (free, id, fields, fits, copy_outcome) (refl, λ j. find-emplace k j pops m free)
    | inr (old, taken) ↦
        rw (taken, id, fields, fits, copy_outcome)
          (refl, λ j. ap (find j) (emplace_present k pops m (λ e. cc)))
  ]

  outcome-Agrees :
      (mode : Mode) (m : Map) (k : Text) (pops : PopList)
      → Agrees mode m k pops (outcome inet_pton mode m k pops)
  unfolding outcome
  outcome-Agrees mode m k pops = elim (Bool-cases (validate_id k max_id_len)) [
    | inr bad ↦ rw (bad, outcome) (refl, unstored mode m k pops)
    | inl id ↦ elim (Bool-cases (validate_pops inet_pton pops)) [
      | inr bad' ↦ rw (id, bad', outcome) (refl, unstored mode m k pops)
      | inl fields ↦ elim (Bool-cases (ltb max_services (length m))) [
        | inl over ↦ rw (id, fields, over, outcome) (refl, full mode m k pops)
        | inr fits ↦
            rw (id, fields, fits, outcome)
              (rw (id, fields, fits) at (copy_outcome-Agrees mode m k pops id fields fits))
      ]
    ]
  ]
    where
      unstored :
          (mode : Mode) (m : Map) (k : Text) (pops : PopList) (j : Text)
          → find j m
            ≡ (if stores mode invalid (find k m) && text_eq k j then some pops else find j m)
      unstored add m k pops j = refl
      unstored replace m k pops j = refl
      unstored upsert m k pops j = refl

      full :
          (mode : Mode) (m : Map) (k : Text) (pops : PopList) (j : Text)
          → find j m
            ≡ (if stores mode capacity (find k m) && text_eq k j then some pops else find j m)
      full add m k pops j = refl
      full replace m k pops j = refl
      full upsert m k pops j = refl

  -- On a registry whose published pointer is on the heap, a mutation of a service answers invalid
  -- if its id or its PoPs are not valid, else capacity if there are over 128 services, else exists
  -- where an addition finds the service and not_found where a replacement finds none, else ok.
  -- Readers find the new PoPs for the service exactly if the answer is ok and it is not an upsert
  -- of a service that was there; for all else they find what they found before.
  pub mutate_lem :
      (mode : Mode) (r : ServiceRegistry) (k : Text) (pops : PopList)
      → Points r
      → let (e, r') = mutate inet_pton mode r k pops in
        (e
          ≡ answers mode
              (validate_id k max_id_len)
              (validate_pops inet_pton pops)
              (length (current r))
              (find k (current r)))
        × ((j : Text)
            → find j (current r') ≡ (
                if stores mode e (find k (current r)) && text_eq k j
                then some pops
                else find j (current r)))
  mutate_lem mode r k pops points =
      subst (Agrees mode (current r) k pops) (sym (mutate-outcome inet_pton mode r k pops points))
        (outcome-Agrees mode (current r) k pops)

remove_outcome-find :
    (m : Map) (k : Text)
    → UniqueKeys m
    → let (done, m') = remove_outcome m k in
      ((done ≡ true) ↔ (find k m ≢ none))
      × ((j : Text) → find j m' ≡ (if text_eq k j then none else find j m))
unfolding remove_outcome
remove_outcome-find m k u = elim (Option-cases (find k m)) [
  | inl absent ↦
      rw (absent, remove_outcome)
        (
          (λ e. cc, λ present. absurd (present refl)),
          λ j. elim (text_eq_cases k j) [
            | inl (same, e) ↦ rw same (rw e at absent)
            | inr (differ, _) ↦ rw differ refl
          ],
        )
  | inr (old, there) ↦
      rw (there, remove_outcome) ((λ _. λ e. cc, λ _. refl), λ j. find-erase_key k j m u)
]

-- On a registry that satisfies its invariant, `removeService` returns true exactly if the service
-- is there. After it readers find nothing for the service, and what they found before for the
-- others.
pub remove_service_lem :
    (inet_pton : InetPton) (r : ServiceRegistry) (k : Text)
    → IsValid inet_pton r
    → let (done, r') = remove_service r k in
      ((done ≡ true) ↔ (find k (current r) ≢ none))
      × ((j : Text) → find j (current r') ≡ (if text_eq k j then none else find j (current r)))
remove_service_lem inet_pton r k v =
    let family = λ (x : Bool × Map).
      ((x.0 ≡ true) ↔ (find k (current r) ≢ none))
      × ((j : Text) → find j x.1 ≡ (if text_eq k j then none else find j (current r))) in
    subst family (sym (remove_service-outcome r k v.points))
      (remove_outcome-find (current r) k v.valid.unique)
