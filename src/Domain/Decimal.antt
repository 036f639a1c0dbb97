-- ===== src/Domain/Decimal.antt =====
-- Python's `Decimal`, as far as the services compute with it: an integer number of millionths.
-- Quantities and conversion factors have three decimal places, so a product of two is exact.
use supply_chain_integration.Base.{ℕ, suc, ◌+◌, ◌*◌, ◌/◌, ◌^◌, ltb, Bool, ◌≡◌, arith}
use supply_chain_integration.Base.Int.{ℤ, pos, negsuc, pos_part, neg_part, sub_ℕ, ltb_ℤ}

abbrev pub Decimal : Type 0
Decimal = ℤ

-- A column `Numeric(18, 3)` keeps three places: PostgreSQL rounds, halves away from zero.
abbrev rounded : ℕ → ℕ
rounded n = ((n + 500) / 1000) * 1000

abbrev magnitude : Decimal → ℕ
magnitude d = pos_part d + neg_part d

unfoldable pub stored : Decimal → Decimal
stored (pos n) = pos (rounded n)
stored (negsuc n) = sub_ℕ 0 (rounded (suc n))

-- It refuses what has more than 15 digits before the point once it is rounded.
unfoldable pub fits_column : Decimal → Bool
fits_column d = ltb (rounded (magnitude d)) (10 ^ 21)

-- A quantity of `n` thousandths, the precision of the columns `Numeric(18, 3)`.
abbrev pub thousandths : ℕ → Decimal
thousandths n = pos (1000 * n)

abbrev pub zero_quantity : Decimal
zero_quantity = pos 0

abbrev pub is_negative : Decimal → Bool
is_negative d = ltb_ℤ d (pos 0)

-- `a * b`; a product of two millionths counts in units of 10 ^ -12.
unfoldable pub times : Decimal → Decimal → Decimal
times a b =
    sub_ℕ ((pos_part a * pos_part b) / 1000000 + (neg_part a * neg_part b) / 1000000)
      ((pos_part a * neg_part b) / 1000000 + (neg_part a * pos_part b) / 1000000)

-- The product of two quantities of three decimal places is exact.
pub times-thousandths : (m n : ℕ) → times (thousandths m) (thousandths n) ≡ pos (m * n)
unfolding times
times-thousandths m n = grind arith

-- A quantity of whole thousandths is stored as it is.
pub stored-thousandths : (n : ℕ) → stored (thousandths n) ≡ thousandths n
unfolding stored
stored-thousandths n = ground arith
