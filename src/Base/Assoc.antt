-- ===== src/Base/Assoc.antt =====
-- `std::unordered_map` as an association list. The order of the list stands for the order of
-- iteration, of which the container promises nothing.
use Prim.Native.Nat.{suc}
use mathlib.Core.Path.{◌≡◌, refl, sym}
use mathlib.Core.Logic.{◌↔◌, ◌≢◌, inl, inr}
use mathlib.Core.Bool.{Bool, true}
use mathlib.Core.Option.{Option, none, some}
use mathlib.Core.List.{List, [], ◌∷◌}
use native.Mathlib.Omega.{arith}
use alpha_smart_router.Base.Tests.{if◌then◌else◌, Bool-cases}
use alpha_smart_router.Base.Strings.{Text, text_eq, text_eq_iff}
use alpha_smart_router.Base.Lists.{length}

-- The equality of the keys.
pub record Eq {ℓ} (K : Type ℓ) : Type ℓ where
  pub beq : K → K → Bool
  pub beq_iff : (a b : K) → (beq a b ≡ true) ↔ (a ≡ b)

instance abbrev pub text_key : Eq Text
text_key = record { beq = text_eq; beq_iff = text_eq_iff }

module _ {ℓ κ} {K : Type ℓ} {V : Type κ} ⦃e : Eq K⦄ where
  -- `find`; none is `end()`
  unfoldable pub find : K → List (K × V) → Option V
  find k [] = none
  find k ((j, v) ∷ m) = if e.beq j k then some v else find k m

  -- `emplace` leaves the map alone where the key is present.
  unfoldable pub emplace : K → V → List (K × V) → List (K × V)
  emplace k v [] = (k, v) ∷ []
  emplace k v ((j, w) ∷ m) = if e.beq j k then (j, w) ∷ m else (j, w) ∷ emplace k v m

  -- `it->second = v`
  unfoldable pub assign : K → V → List (K × V) → List (K × V)
  assign k v [] = []
  assign k v ((j, w) ∷ m) = if e.beq j k then (j, v) ∷ m else (j, w) ∷ assign k v m

  -- `erase(it)`
  unfoldable pub erase_key : K → List (K × V) → List (K × V)
  erase_key k [] = []
  erase_key k ((j, w) ∷ m) = if e.beq j k then m else (j, w) ∷ erase_key k m

  -- Keys stand in the list once each.
  abbrev pub Fresh : K → List (K × V) → Type ℓ
  Fresh k [] = Unit
  Fresh k ((j, v) ∷ m) = (j ≢ k) × Fresh k m

  abbrev pub UniqueKeys : List (K × V) → Type ℓ
  UniqueKeys [] = Unit
  UniqueKeys ((j, v) ∷ m) = Fresh j m × UniqueKeys m

  pub find-emplace :
      (k j : K) (v : V) (m : List (K × V))
      → find k m ≡ none
      → find j (emplace k v m) ≡ (if e.beq k j then some v else find j m)
  unfolding find emplace
  find-emplace k j v [] p = refl
  find-emplace k j v ((i, w) ∷ m) p =
      ground (arith, e.beq_iff k j, e.beq_iff i k, e.beq_iff i j, find-emplace k j v m)

  pub emplace_present : (k : K) (v : V) (m : List (K × V)) → find k m ≢ none → emplace k v m ≡ m
  unfolding find emplace
  emplace_present k v [] p = absurd (p refl)
  emplace_present k v ((i, w) ∷ m) p = ground (arith, emplace_present k v m)

  pub find-assign :
      (k j : K) (v : V) (m : List (K × V))
      → find k m ≢ none
      → find j (assign k v m) ≡ (if e.beq k j then some v else find j m)
  unfolding find assign
  find-assign k j v [] p = absurd (p refl)
  find-assign k j v ((i, w) ∷ m) p =
      ground (arith, e.beq_iff k j, e.beq_iff i k, e.beq_iff i j, find-assign k j v m)

  pub find-Fresh : (k : K) (m : List (K × V)) → Fresh k m → find k m ≡ none
  unfolding find
  find-Fresh k [] f = refl
  find-Fresh k ((i, w) ∷ m) f = ground (arith, e.beq_iff i k, find-Fresh k m f.1)

  pub find-erase_key :
      (k j : K) (m : List (K × V))
      → UniqueKeys m
      → find j (erase_key k m) ≡ (if e.beq k j then none else find j m)
  unfolding find erase_key
  find-erase_key k j [] u = ground arith
  find-erase_key k j ((i, w) ∷ m) u = ground (
    arith,
    e.beq_iff k j,
    e.beq_iff i k,
    e.beq_iff i j,
    find-erase_key k j m u.1,
    find-Fresh i m u.0,
  )

  pub length-emplace :
      (k : K) (v : V) (m : List (K × V)) → find k m ≡ none → length (emplace k v m) ≡ suc (length m)
  unfolding find emplace
  length-emplace k v [] p = refl
  length-emplace k v ((i, w) ∷ m) p = ground (arith, length-emplace k v m)

  pub length-assign : (k : K) (v : V) (m : List (K × V)) → length (assign k v m) ≡ length m
  unfolding assign
  length-assign k v [] = refl
  length-assign k v ((i, w) ∷ m) = ground (arith, length-assign k v m)

  pub length-erase_key :
      (k : K) (m : List (K × V)) → find k m ≢ none → suc (length (erase_key k m)) ≡ length m
  unfolding find erase_key
  length-erase_key k [] p = absurd (p refl)
  length-erase_key k ((i, w) ∷ m) p = ground (arith, length-erase_key k m)

  Fresh-emplace : (i k : K) (v : V) (m : List (K × V)) → i ≢ k → Fresh i m → Fresh i (emplace k v m)
  unfolding emplace
  Fresh-emplace i k v [] d f = (λ p. d (sym p), tt)
  Fresh-emplace i k v ((j, w) ∷ m) d f = elim (Bool-cases (e.beq j k)) [
    | inl same ↦ rw same f
    | inr differ ↦ rw differ (f.0, Fresh-emplace i k v m d f.1)
  ]

  pub UniqueKeys-emplace :
      (k : K) (v : V) (m : List (K × V)) → UniqueKeys m → UniqueKeys (emplace k v m)
  unfolding emplace
  UniqueKeys-emplace k v [] u = (tt, tt)
  UniqueKeys-emplace k v ((j, w) ∷ m) u = elim (Bool-cases (e.beq j k)) [
    | inl same ↦ rw same u
    | inr differ ↦ rw differ (
      Fresh-emplace j k v m (λ p. cc (differ, (e.beq_iff j k).1 p)) u.0,
      UniqueKeys-emplace k v m u.1,
    )
  ]

  Fresh-assign : (i k : K) (v : V) (m : List (K × V)) → Fresh i m → Fresh i (assign k v m)
  unfolding assign
  Fresh-assign i k v [] f = tt
  Fresh-assign i k v ((j, w) ∷ m) f = elim (Bool-cases (e.beq j k)) [
    | inl same ↦ rw same f
    | inr differ ↦ rw differ (f.0, Fresh-assign i k v m f.1)
  ]

  pub UniqueKeys-assign :
      (k : K) (v : V) (m : List (K × V)) → UniqueKeys m → UniqueKeys (assign k v m)
  unfolding assign
  UniqueKeys-assign k v [] u = tt
  UniqueKeys-assign k v ((j, w) ∷ m) u = elim (Bool-cases (e.beq j k)) [
    | inl same ↦ rw same u
    | inr differ ↦ rw differ (Fresh-assign j k v m u.0, UniqueKeys-assign k v m u.1)
  ]

  Fresh-erase_key : (i k : K) (m : List (K × V)) → Fresh i m → Fresh i (erase_key k m)
  unfolding erase_key
  Fresh-erase_key i k [] f = tt
  Fresh-erase_key i k ((j, w) ∷ m) f = elim (Bool-cases (e.beq j k)) [
    | inl same ↦ rw same f.1
    | inr differ ↦ rw differ (f.0, Fresh-erase_key i k m f.1)
  ]

  pub UniqueKeys-erase_key : (k : K) (m : List (K × V)) → UniqueKeys m → UniqueKeys (erase_key k m)
  unfolding erase_key
  UniqueKeys-erase_key k [] u = tt
  UniqueKeys-erase_key k ((j, w) ∷ m) u = elim (Bool-cases (e.beq j k)) [
    | inl same ↦ rw same u.1
    | inr differ ↦ rw differ (Fresh-erase_key j k m u.0, UniqueKeys-erase_key k m u.1)
  ]
