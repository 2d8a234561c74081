-- ===== src/Routing/Validation/Unique.antt =====
-- What `validatePops` accepts.
use alpha_smart_router.Base.{
  ◌≡◌, refl, ◌≤◌, ◌↔◌, inl, inr, true, false, List, [], ◌∷◌, Text, text_lt, text_lt_trans,
  text_lt_irrefl, text_lt_total, text_eq, text_eq_iff, text_eq_cases, arith, Bool-cases, length,
}
use mathlib.Core.Logic.Or
use mathlib.Core.List.{
  Mem, Perm, Nodup, Nodup-cons, Nodup-nil, mem-cons, mem-cons_self, not-mem-nil,
}
use mathlib.Core.List.Perm
use mathlib.Core.Bool.{Bool-set}
use alpha_smart_router.Routing.Pop.{Pop, PopList}
use alpha_smart_router.Routing.Validation.{
  InetPton, insert_text, sort_texts, adjacent_equal, ids_of, max_pops_per_service, max_id_len,
  max_region_len, validate_id, validate_ip, validate_fields, validate_pops,
}

-- No text comes before the one in front of it.
abbrev IsSorted : List Text → Type 0
IsSorted [] = Unit
IsSorted (t ∷ []) = Unit
IsSorted (t ∷ u ∷ us) = (text_lt u t ≡ false) × IsSorted (u ∷ us)

insert_text-perm : (t : Text) (us : List Text) → Perm (insert_text t us) (t ∷ us)
unfolding insert_text
insert_text-perm t [] = Perm.refl _
insert_text-perm t (u ∷ us) = elim (Bool-cases (text_lt u t)) [
  | inl before ↦ rw before (Perm.trans (Perm.cons u (insert_text-perm t us)) (Perm.swap t u us))
  | inr after ↦ rw after (Perm.refl _)
]

sort_texts-perm : (ts : List Text) → Perm (sort_texts ts) ts
unfolding sort_texts
sort_texts-perm [] = Perm.refl _
sort_texts-perm (t ∷ ts) =
    Perm.trans (insert_text-perm t (sort_texts ts)) (Perm.cons t (sort_texts-perm ts))

lt-not_gt : (t u : Text) → text_lt t u ≡ true → text_lt u t ≡ false
lt-not_gt t u p = elim (Bool-cases (text_lt u t)) [
  | inl back ↦ cc (text_lt_trans t u t p back, text_lt_irrefl t)
  | inr done ↦ done
]

insert_text-IsSorted : (t : Text) (us : List Text) → IsSorted us → IsSorted (insert_text t us)
unfolding insert_text
insert_text-IsSorted t [] s = tt
insert_text-IsSorted t (u ∷ []) s = elim (Bool-cases (text_lt u t)) [
  | inl before ↦ rw before (lt-not_gt u t before, tt)
  | inr after ↦ rw after (after, tt)
]
insert_text-IsSorted t (u ∷ v ∷ us) s =
    let rest = insert_text-IsSorted t (v ∷ us) s.1 in
    elim (Bool-cases (text_lt u t)) [
      | inr after ↦ rw after (after, s)
      | inl before ↦ elim (Bool-cases (text_lt v t)) [
        | inl before' ↦ rw (before, before') (s.0, (rw (before', insert_text) at rest))
        | inr after' ↦ rw (before, after') (lt-not_gt u t before, (after', s.1))
      ]
    ]

sort_texts-IsSorted : (ts : List Text) → IsSorted (sort_texts ts)
unfolding sort_texts
sort_texts-IsSorted [] = tt
sort_texts-IsSorted (t ∷ ts) = insert_text-IsSorted t (sort_texts ts) (sort_texts-IsSorted ts)

-- In a sorted list with no equal neighbours the first text comes before every other.
head-lt :
    (t : Text) (us : List Text) (x : Text)
    → IsSorted (t ∷ us)
    → adjacent_equal (t ∷ us) ≡ false
    → Mem x us
    → text_lt t x ≡ true
unfolding adjacent_equal
head-lt t [] x s d m = absurd (not-mem-nil m)
head-lt t (u ∷ us) x s d m =
    Or.elim (Bool-set _ _) (mem-cons.0 m) (λ e. rw e first)
      (λ later. text_lt_trans t u x first (head-lt u us x s.1 (ground arith) later))
  where
    first : text_lt t u ≡ true
    first = elim (Bool-cases (text_lt t u)) [
      | inl lt ↦ lt
      | inr not_lt ↦
          let same : t ≡ u = text_lt_total t u not_lt s.0 in
          let equal : text_eq t u ≡ true = (text_eq_iff t u).1 same in ground arith
    ]

adjacent-Nodup : (ts : List Text) → IsSorted ts → adjacent_equal ts ≡ false → Nodup ts
unfolding adjacent_equal
adjacent-Nodup [] s d = Nodup-nil
adjacent-Nodup (t ∷ []) s d = Nodup-cons.1 (λ m. not-mem-nil m, Nodup-nil)
adjacent-Nodup (t ∷ u ∷ us) s d = Nodup-cons.1 (
  λ m. cc (head-lt t (u ∷ us) t s d m, text_lt_irrefl t),
  adjacent-Nodup (u ∷ us) s.1 (ground arith),
)

Nodup-adjacent : (ts : List Text) → Nodup ts → adjacent_equal ts ≡ false
unfolding adjacent_equal
Nodup-adjacent [] n = refl
Nodup-adjacent (t ∷ []) n = refl
Nodup-adjacent (t ∷ u ∷ us) n = elim (text_eq_cases t u) [
  | inl (_, same) ↦ absurd ((Nodup-cons.0 n).0 (rw same mem-cons_self))
  | inr (differ, _) ↦ rw differ (Nodup-adjacent (u ∷ us) (Nodup-cons.0 n).1)
]

-- The check by sorting: no two neighbours are equal exactly when no text stands twice.
adjacent_iff : (ts : List Text) → (adjacent_equal (sort_texts ts) ≡ false) ↔ Nodup ts
adjacent_iff ts = (
  λ d. Perm.nodup (sort_texts-perm ts) (adjacent-Nodup _ (sort_texts-IsSorted ts) d),
  λ n. Nodup-adjacent _ (Perm.nodup (Perm.symm (sort_texts-perm ts)) n),
)

-- The fields of a PoP that the registry takes.
abbrev pub FieldsValid : InetPton → Pop → Type 0
FieldsValid inet_pton p =
    (validate_id p.id max_id_len ≡ true)
    × (validate_id p.region max_region_len ≡ true)
    × (validate_ip inet_pton p.ip ≡ true)

abbrev pub AllFieldsValid : InetPton → PopList → Type 0
AllFieldsValid inet_pton [] = Unit
AllFieldsValid inet_pton (p ∷ ps) = FieldsValid inet_pton p × AllFieldsValid inet_pton ps

validate_fields_iff :
    (inet_pton : InetPton) (ps : PopList)
    → (validate_fields inet_pton ps ≡ true) ↔ AllFieldsValid inet_pton ps
unfolding validate_fields
validate_fields_iff inet_pton [] = (λ _. tt, λ _. refl)
validate_fields_iff inet_pton (p ∷ ps) = ground (arith, validate_fields_iff inet_pton ps)

-- `validatePops` accepts a list exactly when it holds between 1 and 32 PoPs, each with a valid id,
-- region and address, and no id stands twice.
pub validate_pops_iff :
    (inet_pton : InetPton) (pops : PopList)
    → (validate_pops inet_pton pops ≡ true) ↔ (
        (1 ≤ length pops)
        × (length pops ≤ max_pops_per_service)
        × AllFieldsValid inet_pton pops
        × Nodup (ids_of pops))
unfolding validate_pops
validate_pops_iff inet_pton [] = (λ e. cc, λ h. absurd (omega (arith, h.0)))
validate_pops_iff inet_pton (p ∷ ps) =
    (λ e. accepted e, λ h. ground (arith, fields.1 h.2, unique.1 h.3))
  where
    fields : (validate_fields inet_pton (p ∷ ps) ≡ true) ↔ AllFieldsValid inet_pton (p ∷ ps)
    fields = validate_fields_iff inet_pton (p ∷ ps)

    unique : (adjacent_equal (sort_texts (ids_of (p ∷ ps))) ≡ false) ↔ Nodup (ids_of (p ∷ ps))
    unique = adjacent_iff (ids_of (p ∷ ps))

    accepted :
        validate_pops inet_pton (p ∷ ps) ≡ true
        → (1 ≤ length (p ∷ ps))
          × (length (p ∷ ps) ≤ max_pops_per_service)
          × AllFieldsValid inet_pton (p ∷ ps)
          × Nodup (ids_of (p ∷ ps))
    accepted e = (omega arith, ground arith, fields.0 (ground arith), unique.0 (ground arith))
