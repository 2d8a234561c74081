-- ===== src/Base/Strings.antt =====
-- `std::string` as the list of its bytes, each below 256: equality, and the order of `operator<`.
use Prim.Native.Nat.{ℕ}
use Prim.Native.Char.{code}
use Prim.Native.String.{String}
use mathlib.Core.Path.{◌≡◌, refl, subst}
use mathlib.Core.Logic.{◌↔◌, ◌≢◌, ◌⊎◌, inl, inr}
use mathlib.Core.Bool.{Bool, true, false, ◌&&◌}
use mathlib.Core.List.{List, [], ◌∷◌}
use mathlib.Core.HLevel.{Discrete}
use native.Mathlib.Omega.{arith}
use alpha_smart_router.Base.Tests.{ltb, ◌==◌, if◌then◌else◌, Bool-cases}

abbrev pub Text : Type 0
Text = List ℕ

-- The bytes of an ASCII literal.
abbrev pub text : String → Text
text String.[] = []
text (String.◌∷◌ c s) = code c ∷ text s

unfoldable pub text_eq : Text → Text → Bool
text_eq [] [] = true
text_eq [] (y ∷ ys) = false
text_eq (x ∷ xs) [] = false
text_eq (x ∷ xs) (y ∷ ys) = x == y && text_eq xs ys

unfoldable pub text_lt : Text → Text → Bool
text_lt [] [] = false
text_lt [] (y ∷ ys) = true
text_lt (x ∷ xs) [] = false
text_lt (x ∷ xs) (y ∷ ys) =
    let rest = text_lt xs ys in if ltb x y then true else if ltb y x then false else rest

pub text_eq_refl : (s : Text) → text_eq s s ≡ true
unfolding text_eq
text_eq_refl [] = refl
text_eq_refl (x ∷ xs) = ground (arith, text_eq_refl xs)

pub text_eq-eq : (s t : Text) → text_eq s t ≡ true → s ≡ t
unfolding text_eq
text_eq-eq [] [] e = refl
text_eq-eq [] (y ∷ ys) e = cc
text_eq-eq (x ∷ xs) [] e = cc
text_eq-eq (x ∷ xs) (y ∷ ys) e = ground (arith, text_eq-eq xs ys)

pub text_eq_iff : (s t : Text) → (text_eq s t ≡ true) ↔ (s ≡ t)
text_eq_iff s t = (text_eq-eq s t, λ e. subst (λ u. text_eq s u ≡ true) e (text_eq_refl s))

-- Either the test passes and the texts are equal, or it fails and they differ.
pub text_eq_cases :
    (s t : Text) → ((text_eq s t ≡ true) × (s ≡ t)) ⊎ ((text_eq s t ≡ false) × (s ≢ t))
text_eq_cases s t = elim (Bool-cases (text_eq s t)) [
  | inl same ↦ inl (same, text_eq-eq s t same)
  | inr differ ↦ inr (differ, λ e. cc (differ, (text_eq_iff s t).1 e))
]

pub text_discrete : Discrete Text
text_discrete s t = elim (text_eq_cases s t) [
  | inl (_, same) ↦ yes same
  | inr (_, differ) ↦ no differ
]

pub text_lt_irrefl : (s : Text) → text_lt s s ≡ false
unfolding text_lt
text_lt_irrefl [] = refl
text_lt_irrefl (x ∷ xs) = ground (arith, text_lt_irrefl xs)

pub text_lt_trans : (s t u : Text) → text_lt s t ≡ true → text_lt t u ≡ true → text_lt s u ≡ true
unfolding text_lt
text_lt_trans [] [] u p q = cc
text_lt_trans [] (y ∷ ys) [] p q = cc
text_lt_trans [] (y ∷ ys) (z ∷ zs) p q = refl
text_lt_trans (x ∷ xs) [] u p q = cc
text_lt_trans (x ∷ xs) (y ∷ ys) [] p q = cc
text_lt_trans (x ∷ xs) (y ∷ ys) (z ∷ zs) p q = ground (arith, text_lt_trans xs ys zs)

-- Two texts of which neither comes first are equal.
pub text_lt_total : (s t : Text) → text_lt s t ≡ false → text_lt t s ≡ false → s ≡ t
unfolding text_lt
text_lt_total [] [] p q = refl
text_lt_total [] (y ∷ ys) p q = cc
text_lt_total (x ∷ xs) [] p q = cc
text_lt_total (x ∷ xs) (y ∷ ys) p q = ground (arith, text_lt_total xs ys)

pub text_lt_neg_trans :
    (s t u : Text) → text_lt s t ≡ false → text_lt t u ≡ false → text_lt s u ≡ false
unfolding text_lt
text_lt_neg_trans [] [] u p q = q
text_lt_neg_trans [] (y ∷ ys) u p q = cc
text_lt_neg_trans (x ∷ xs) [] [] p q = refl
text_lt_neg_trans (x ∷ xs) [] (z ∷ zs) p q = cc
text_lt_neg_trans (x ∷ xs) (y ∷ ys) [] p q = refl
text_lt_neg_trans (x ∷ xs) (y ∷ ys) (z ∷ zs) p q = ground (arith, text_lt_neg_trans xs ys zs)
