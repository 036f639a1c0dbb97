-- ===== src/Domain/Inventory.antt =====
-- domain/inventory.py: the quantity that may be promised to an order.
use supply_chain_integration.Base.{◌-◌, ◌≡◌, arith, if◌then◌else◌}
use supply_chain_integration.Base.Int.{ℤ, pos, ◌-ℤ◌, pos_part, ltb_ℤ}
use supply_chain_integration.Domain.Errors.{Result, ok, err, domain_validation}
use supply_chain_integration.Domain.Decimal.{Decimal, is_negative, zero_quantity}

-- `max(a, b)`: Python keeps the first unless the second is greater.
abbrev max_decimal : Decimal → Decimal → Decimal
max_decimal a b = if ltb_ℤ a b then b else a

unfoldable pub calculate_available_quantity : Decimal → Decimal → Result Decimal
unfolding ◌-ℤ◌
calculate_available_quantity on_hand_quantity reserved_quantity =
    if is_negative on_hand_quantity
    then err domain_validation
    else if is_negative reserved_quantity
    then err domain_validation
    else ok (max_decimal (on_hand_quantity -ℤ reserved_quantity) zero_quantity)

-- For two quantities that are not negative the result is on-hand less reserved, and zero where
-- more is reserved than there is; any negative quantity is refused as a validation error.
pub calculate_available_quantity_lem :
    (on_hand reserved : ℤ)
    → calculate_available_quantity on_hand reserved ≡ (
        if is_negative on_hand
        then err domain_validation
        else if is_negative reserved
        then err domain_validation
        else ok (pos (pos_part on_hand - pos_part reserved)))
unfolding calculate_available_quantity
calculate_available_quantity_lem a b = ground arith
