-- ===== src/Base/Bits.antt =====
-- Masks and powers of two: what `&` and `|` do with them, from the digits that they stand for.
use Prim.Native.Nat.{
  ℕ, zero, suc, ◌+◌, ◌-◌, ◌*◌, ◌/◌, ◌%◌, ◌^◌, ◌≤◌, ◌<◌, min, max, bit_and, bit_or, digits,
  bit_and-bitwise, bit_or-bitwise,
}
use mathlib.Core.Path.{◌≡◌, refl, ap, ◌∙◌, sym}
use native.Mathlib.Omega.{arith}
use native.Mathlib.Nat.{
  pow-suc, mod-add-div', add-mul-mod_self_right, mod-eq_of_lt, mod-lt, mod_self,
}
use native.Mathlib.Decide.{ℕ_discrete}

pub pow_two_pos : (k : ℕ) → 1 ≤ 2 ^ k
pow_two_pos zero = omega arith
pow_two_pos (suc k) = omega (arith, pow-suc 2 k, pow_two_pos k)

pub pow_two_gt_one : (k : ℕ) → 0 < k → 1 < 2 ^ k
pow_two_gt_one zero pos = absurd (omega arith)
pow_two_gt_one (suc k) pos = omega (arith, pow-suc 2 k, pow_two_pos k)

-- The conjunction by at most `n` digits, as `bit_and` unfolds.
abbrev conj : ℕ → ℕ → ℕ → ℕ
conj n x y = digits (λ _. 0) min n x y

abbrev disj : ℕ → ℕ → ℕ → ℕ
disj n x y = digits (λ y. y) max n x y

-- A remainder by twice `p` is that of the half by `p`, and the lowest digit.
mod-twice : (x p : ℕ) → 0 < p → x % (p * 2) ≡ (x / 2 % p) * 2 + x % 2
mod-twice x p pos =
    ap (λ (t : ℕ). t % (p * 2)) split
    ∙ add-mul-mod_self_right rest (x / 2 / p) (p * 2)
    ∙ mod-eq_of_lt (omega (arith, mod-lt (x / 2) pos))
  where
    rest : ℕ
    rest = (x / 2 % p) * 2 + x % 2

    split : x ≡ rest + x / 2 / p * (p * 2)
    split = omega (arith, mod-add-div' (x / 2) p)

conj-zero : (n x : ℕ) → conj n x 0 ≡ 0
conj-zero zero x = refl
conj-zero (suc n) zero = refl
conj-zero (suc n) (suc x) = omega (arith, conj-zero n (suc x / 2))

conj-mask : (k n x : ℕ) → x ≤ n → conj n x (2 ^ k - 1) ≡ x % 2 ^ k
conj-mask zero n x le = omega (arith, conj-zero n x)
conj-mask (suc k) zero zero le =
    omega (arith, pow_two_pos (suc k), mod-eq_of_lt (pow_two_pos (suc k)))
conj-mask (suc k) zero (suc x) le = absurd (omega arith)
conj-mask (suc k) (suc n) zero le = omega (arith, mod-eq_of_lt (pow_two_pos (suc k)))
conj-mask (suc k) (suc n) (suc x) le =
    let deeper = conj-mask k n (suc x / 2) (omega arith) in
    let half : (2 ^ k * 2 - 1) / 2 ≡ 2 ^ k - 1 = omega (arith, pow_two_pos k) in
    rw pow-suc (
      omega (
        arith,
        pow_two_pos k,
        deeper,
        ap (conj n (suc x / 2)) half,
        mod-twice (suc x) (2 ^ k) (pow_two_pos k),
      ))

-- `x & (2^k - 1)` is `x % 2^k`.
pub bit_and_mask : (k x : ℕ) → bit_and x (2 ^ k - 1) ≡ x % 2 ^ k
bit_and_mask k x = bit_and-bitwise x (2 ^ k - 1) ∙ conj-mask k x x (omega arith)

pub bit_and_pow : (k : ℕ) → bit_and (2 ^ k) (2 ^ k - 1) ≡ 0
bit_and_pow k = bit_and_mask k (2 ^ k) ∙ mod_self (2 ^ k)

conj-same : (n x : ℕ) → x ≤ n → conj n x x ≡ x
conj-same zero zero le = refl
conj-same zero (suc x) le = absurd (omega arith)
conj-same (suc n) zero le = refl
conj-same (suc n) (suc x) le = omega (arith, conj-same n (suc x / 2) (omega arith))

-- A number with no digit in common with its predecessor is a power of two.
pow_of_conj : (n x : ℕ) → x ≤ n → 0 < x → conj n x (x - 1) ≡ 0 → (k : ℕ) × (x ≡ 2 ^ k)
pow_of_conj n zero le pos e = absurd (omega arith)
pow_of_conj zero (suc x) le pos e = absurd (omega arith)
pow_of_conj (suc n) (suc x) le pos e = elim (ℕ_discrete (suc x % 2) 0) [
  | yes even ↦
      let lower : (suc x - 1) / 2 ≡ suc x / 2 - 1 = omega arith in
      let (k, p) =
        pow_of_conj n (suc x / 2) (omega arith) (omega arith)
          (omega (arith, ap (conj n (suc x / 2)) lower)) in
      (suc k, omega (arith, pow-suc 2 k))
  | no odd ↦
      let same : (suc x - 1) / 2 ≡ suc x / 2 = omega arith in
      let whole = conj-same n (suc x / 2) (omega arith) in
      (0, omega (arith, ap (conj n (suc x / 2)) same))
]

-- `x & (x - 1)` is zero at the powers of two, and only there.
pub pow_of_bit_and : (x : ℕ) → 0 < x → bit_and x (x - 1) ≡ 0 → (k : ℕ) × (x ≡ 2 ^ k)
pow_of_bit_and x pos e = pow_of_conj x x (omega arith) pos (sym (bit_and-bitwise x (x - 1)) ∙ e)

disj-zero : (n x : ℕ) → x ≤ n → disj n x 0 ≡ x
disj-zero zero zero le = refl
disj-zero zero (suc x) le = absurd (omega arith)
disj-zero (suc n) zero le = refl
disj-zero (suc n) (suc x) le = omega (arith, disj-zero n (suc x / 2) (omega arith))

-- `x | 1` sets the lowest bit.
pub bit_or-one : (x : ℕ) → bit_or x 1 ≡ x / 2 * 2 + 1
bit_or-one zero = bit_or-bitwise 0 1
bit_or-one (suc x) = omega (arith, bit_or-bitwise (suc x) 1, disj-zero x (suc x / 2) (omega arith))

-- `x & 1` is the lowest bit.
pub bit_and-one : (x : ℕ) → bit_and x 1 ≡ x % 2
bit_and-one x = bit_and_mask 1 x
