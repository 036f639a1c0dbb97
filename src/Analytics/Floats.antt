-- ===== src/Analytics/Floats.antt =====
-- The floating-point numbers of numpy, as far as analytics/risk.py uses them: a parameter.
use supply_chain_integration.Base.{ℕ, ◌≡◌, Bool, true, List}
use supply_chain_integration.Domain.Decimal.{Decimal}

-- `quantile values k` is `np.quantile(values, k / 10)`; `quantized places x` is
-- `Decimal(str(x)).quantize` to that many places, rounding half up.
pub record Floats (F : Type 0) : Type 0 where
  pub zero : F
  pub add : F → F → F
  pub sub : F → F → F
  pub mul : F → F → F
  pub of_ℕ : ℕ → F
  pub floor : F → F
  pub rint : F → F
  pub neg : F → F
  pub abs : F → F
  pub square : F → F
  pub sqrt : F → F
  pub div : F → F → F
  pub maximum : F → F → F
  pub le : F → F → Bool
  pub eq : F → F → Bool
  pub lt : F → F → Bool
  pub sum : List F → F
  pub mean : List F → F
  pub quantile : List F → ℕ → F
  pub quantized : ℕ → F → Decimal

-- What the code relies on of IEEE 754: a comparison with a NaN is false, and what equals itself is
-- no NaN. Sums, products and quotients may overflow, and may be a NaN.
pub record IsOrdered {F : Type 0} (f : Floats F) : Type 0 where
  pub zero_number : f.eq f.zero f.zero ≡ true
  pub le_number : (a b : F) → f.le a b ≡ true → f.eq a a ≡ true
  pub le_refl : (a : F) → f.eq a a ≡ true → f.le a a ≡ true
  pub le_trans : (a b c : F) → f.le a b ≡ true → f.le b c ≡ true → f.le a c ≡ true
  pub le_antisym : (a b : F) → f.le a b ≡ true → f.le b a ≡ true → f.eq a b ≡ true
  pub eq_le : (a b : F) → f.eq a b ≡ true → f.le a b ≡ true
  pub le_maximum :
      (a b : F) → f.eq (f.maximum a b) (f.maximum a b) ≡ true → f.le b (f.maximum a b) ≡ true
  pub div_nonnegative :
      (a b : F)
      → f.le f.zero a ≡ true
      → f.lt f.zero b ≡ true
      → f.eq (f.div a b) (f.div a b) ≡ true
      → f.le f.zero (f.div a b) ≡ true
  pub div_number : (a b : F) → f.eq (f.div a b) (f.div a b) ≡ true → f.eq a a ≡ true
