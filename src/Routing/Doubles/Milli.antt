-- ===== src/Routing/Doubles/Milli.antt =====
-- Numbers of thousandths, as a `Doubles` that can be run.
use alpha_smart_router.Base.{ℕ, ◌+◌, ◌-◌, ◌*◌, ◌/◌, ◌≤◌, ◌<◌, ◌≡◌, true, arith, ltb, leb}
use native.Mathlib.Nat.{
  div-mul-le_self, mul-le-mul_right, le_of_mul-le-mul_right, le-div_iff_mul-le,
}
use alpha_smart_router.Routing.Doubles.{Doubles, Ordered}

abbrev pub milli : Doubles
milli = record {
  Double = ℕ;
  gt = λ a b. ltb b a;
  ge = λ a b. leb b a;
  add = λ a b. a + b;
  sub = λ a b. a - b;
  mul = λ a b. a * b / 1000;
  div = λ a b. a * 1000 / b;
  of_nat = λ n. n * 1000;
  tiny = 1;
}

pub milli-Ordered : Ordered milli
milli-Ordered = record {
  gt_irrefl = λ a. ground arith;
  gt_trans = λ a b c p q. ground arith;
  gt_neg_trans = λ a b c p q. ground arith;
}

-- A quotient that is less as a fraction is less after rounding down.
div_le_div : (x y z w : ℕ) → 0 < y → 0 < w → x * w ≤ z * y → x / y ≤ z / w
div_le_div x y z w pos_y pos_w le =
    let times : x / y * w * y ≤ z * y = grind (arith, mul-le-mul_right w (div-mul-le_self x y)) in
    (le-div_iff_mul-le pos_w).1 (le_of_mul-le-mul_right times pos_y)

pub milli-div :
    (a b n k : ℕ)
    → 0 < b
    → 0 < k
    → n * b ≤ a * k
    → milli.ge
        (milli.div (milli.of_nat a) (milli.of_nat b))
        (milli.div (milli.of_nat n) (milli.of_nat k))
      ≡ true
milli-div a b n k pos_b pos_k le =
    let less : n * 1000 * 1000 / (k * 1000) ≤ a * 1000 * 1000 / (b * 1000) =
      div_le_div (n * 1000 * 1000) (k * 1000) (a * 1000 * 1000) (b * 1000) (omega arith)
        (omega arith) (grind arith) in
    ground arith
