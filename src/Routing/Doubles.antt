-- ===== src/Routing/Doubles.antt =====
-- The `double` arithmetic that the routing policies use, as an interface.
-- `Ordered` says of the comparison what IEEE 754 says of it away from NaN.
pub mod Milli
use alpha_smart_router.Base.{ℕ, ◌≡◌, Bool, true, false}

pub record Doubles : Type 1 where
  pub Double : Type 0
  pub gt : Double → Double → Bool  -- a > b
  pub ge : Double → Double → Bool  -- a >= b
  pub add : Double → Double → Double
  pub sub : Double → Double → Double
  pub mul : Double → Double → Double
  pub div : Double → Double → Double
  pub of_nat : ℕ → Double  -- of an unsigned integer
  pub tiny : Double  -- 1e-9

-- Of no NaN, `>` is irreflexive, and what is not greater stays so along a chain.
pub record Ordered (d : Doubles) : Type 0 where
  pub gt_irrefl : (a : d.Double) → d.gt a a ≡ false
  pub gt_trans : (a b c : d.Double) → d.gt a b ≡ true → d.gt b c ≡ true → d.gt a c ≡ true
  pub gt_neg_trans : (a b c : d.Double) → d.gt a b ≡ false → d.gt b c ≡ false → d.gt a c ≡ false
