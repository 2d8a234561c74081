-- ===== src/Routing/Registry/ValidMap.antt =====
-- What the outcomes of the operations keep of the published map.
use alpha_smart_router.Base.{
  suc, ◌≤◌, ◌≡◌, ap, true, false, [], ◌∷◌, ltb, length, Text, text_eq, find, emplace, assign,
  erase_key, text_key, arith, Bool-cases, Option-cases, inl, inr, UniqueKeys, UniqueKeys-emplace,
  UniqueKeys-assign, UniqueKeys-erase_key, length-emplace, length-assign, length-erase_key,
  emplace_present,
}
use alpha_smart_router.Routing.Pop.{PopList}
use alpha_smart_router.Routing.Validation.{
  InetPton, max_services, max_id_len, validate_id, validate_pops,
}
use alpha_smart_router.Routing.Registry.{Mode, add, replace, upsert, Map}
use alpha_smart_router.Routing.Registry.State.{copy_outcome, outcome, remove_outcome}

-- Every key and every list of PoPs is one that the checks accept.
abbrev pub EntriesValid : InetPton → Map → Type 0
EntriesValid inet_pton [] = Unit
EntriesValid inet_pton ((k, pops) ∷ m) =
    (validate_id k max_id_len ≡ true)
    × (validate_pops inet_pton pops ≡ true)
    × EntriesValid inet_pton m

pub record ValidMap (inet_pton : InetPton) (m : Map) : Type 0 where
  pub unique : UniqueKeys m
  pub entries : EntriesValid inet_pton m
  pub bounded : length m ≤ suc max_services

module _ (inet_pton : InetPton) where
  pub ValidMap-nil : ValidMap inet_pton []
  ValidMap-nil = record { unique = tt; entries = tt; bounded = omega arith }

  EntriesValid-emplace :
      (k : Text) (pops : PopList) (m : Map)
      → validate_id k max_id_len ≡ true
      → validate_pops inet_pton pops ≡ true
      → EntriesValid inet_pton m
      → EntriesValid inet_pton (emplace k pops m)
  unfolding emplace
  EntriesValid-emplace k pops [] id fields v = (id, fields, tt)
  EntriesValid-emplace k pops ((j, ps) ∷ m) id fields v = elim (Bool-cases (text_eq j k)) [
    | inl same ↦ rw same v
    | inr differ ↦ rw differ (v.0, v.1, EntriesValid-emplace k pops m id fields v.2)
  ]

  EntriesValid-assign :
      (k : Text) (pops : PopList) (m : Map)
      → validate_pops inet_pton pops ≡ true
      → EntriesValid inet_pton m
      → EntriesValid inet_pton (assign k pops m)
  unfolding assign
  EntriesValid-assign k pops [] fields v = tt
  EntriesValid-assign k pops ((j, ps) ∷ m) fields v = elim (Bool-cases (text_eq j k)) [
    | inl same ↦ rw same (v.0, fields, v.2)
    | inr differ ↦ rw differ (v.0, v.1, EntriesValid-assign k pops m fields v.2)
  ]

  EntriesValid-erase_key :
      (k : Text) (m : Map) → EntriesValid inet_pton m → EntriesValid inet_pton (erase_key k m)
  unfolding erase_key
  EntriesValid-erase_key k [] v = tt
  EntriesValid-erase_key k ((j, ps) ∷ m) v = elim (Bool-cases (text_eq j k)) [
    | inl same ↦ rw same v.2
    | inr differ ↦ rw differ (v.0, v.1, EntriesValid-erase_key k m v.2)
  ]

  length-emplace_le :
      (k : Text) (pops : PopList) (m : Map) → length (emplace k pops m) ≤ suc (length m)
  length-emplace_le k pops m = elim (Option-cases (find k m)) [
    | inl free ↦ omega (arith, length-emplace k pops m free)
    | inr (old, taken) ↦ omega (arith, ap length (emplace_present k pops m (λ e. cc)))
  ]

  ValidMap-emplace :
      (k : Text) (pops : PopList) (m : Map)
      → validate_id k max_id_len ≡ true
      → validate_pops inet_pton pops ≡ true
      → ltb max_services (length m) ≡ false
      → ValidMap inet_pton m
      → ValidMap inet_pton (emplace k pops m)
  ValidMap-emplace k pops m id fields fits v = record {
    unique = UniqueKeys-emplace k pops m v.unique;
    entries = EntriesValid-emplace k pops m id fields v.entries;
    bounded = ground (arith, length-emplace_le k pops m);
  }

  ValidMap-assign :
      (k : Text) (pops : PopList) (m : Map)
      → validate_pops inet_pton pops ≡ true
      → ValidMap inet_pton m
      → ValidMap inet_pton (assign k pops m)
  ValidMap-assign k pops m fields v = record {
    unique = UniqueKeys-assign k pops m v.unique;
    entries = EntriesValid-assign k pops m fields v.entries;
    bounded = rw (length-assign k pops m) v.bounded;
  }

  copy_outcome-ValidMap :
      (mode : Mode) (m : Map) (k : Text) (pops : PopList)
      → validate_id k max_id_len ≡ true
      → validate_pops inet_pton pops ≡ true
      → ltb max_services (length m) ≡ false
      → ValidMap inet_pton m
      → ValidMap inet_pton (copy_outcome mode m k pops).1
  unfolding copy_outcome
  copy_outcome-ValidMap add m k pops id fields fits v = elim (Option-cases (find k m)) [
    | inl free ↦ rw (free, copy_outcome) (ValidMap-emplace k pops m id fields fits v)
    | inr (old, taken) ↦ rw (taken, copy_outcome) v
  ]
  copy_outcome-ValidMap replace m k pops id fields fits v = elim (Option-cases (find k m)) [
    | inl free ↦ rw (free, copy_outcome) v
    | inr (old, taken) ↦ rw (taken, copy_outcome) (ValidMap-assign k pops m fields v)
  ]
  copy_outcome-ValidMap upsert m k pops id fields fits v =
      ValidMap-emplace k pops m id fields fits v

  pub outcome-ValidMap :
      (mode : Mode) (m : Map) (k : Text) (pops : PopList)
      → ValidMap inet_pton m
      → ValidMap inet_pton (outcome inet_pton mode m k pops).1
  unfolding outcome
  outcome-ValidMap mode m k pops v = elim (Bool-cases (validate_id k max_id_len)) [
    | inr bad ↦ rw (bad, outcome) v
    | inl id ↦ elim (Bool-cases (validate_pops inet_pton pops)) [
      | inr bad' ↦ rw (id, bad', outcome) v
      | inl fields ↦ elim (Bool-cases (ltb max_services (length m))) [
        | inl over ↦ rw (id, fields, over, outcome) v
        | inr fits ↦
            rw (id, fields, fits, outcome) (copy_outcome-ValidMap mode m k pops id fields fits v)
      ]
    ]
  ]

  pub remove_outcome-ValidMap :
      (m : Map) (k : Text) → ValidMap inet_pton m → ValidMap inet_pton (remove_outcome m k).1
  unfolding remove_outcome
  remove_outcome-ValidMap m k v = elim (Option-cases (find k m)) [
    | inl absent ↦ rw (absent, remove_outcome) v
    | inr (old, there) ↦
        let shorter = length-erase_key k m (λ e. cc) in
        rw (there, remove_outcome)
          record {
            unique = UniqueKeys-erase_key k m v.unique;
            entries = EntriesValid-erase_key k m v.entries;
            bounded = omega (arith, v.bounded, shorter);
          }
  ]
