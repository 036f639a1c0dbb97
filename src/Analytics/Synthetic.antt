-- ===== src/Analytics/Synthetic.antt =====
-- analytics/synthetic.py: the generated inputs of the reconciliation. numpy's generator is a
-- parameter.
use Prim.Native.Nat.{◌%◌}
use Prim.Native.String.{count, ◌++◌}
use supply_chain_integration.Base.{
  ℕ, zero, suc, ◌+◌, ◌-◌, ◌/◌, ◌<◌, ◌≡◌, refl, String, List, [], ◌∷◌, ltb, drop, if◌then◌else◌,
}
use supply_chain_integration.Base.Int.{ℤ, pos, negsuc, ◌+ℤ◌, ltb_ℤ}
use supply_chain_integration.Domain.Errors.{Result, ok, err, other_error}
use supply_chain_integration.Analytics.Types.{SupplierInventoryRow, HubInventoryRow}

-- The element at an index of the arrays that `integers(0, 500, size)` and `choice(deltas, size)`
-- give for a seed, in the ranges that numpy documents; of the choice, the position in the array of
-- differences.
pub record Generator : Type 0 where
  pub integers : ℕ → ℕ → ℕ → ℕ
  pub choice : ℕ → ℕ → ℕ → ℕ
  pub integers_low : (seed size index : ℕ) → integers seed size index < 500
  pub choice_low : (seed size index : ℕ) → choice seed size index < 10

-- -20, -8, -3, 0, 0, 0, 0, 4, 9, 25
abbrev pub deltas : List ℤ
deltas =
    negsuc 19 ∷ negsuc 7 ∷ negsuc 2 ∷ pos 0 ∷ pos 0 ∷ pos 0 ∷ pos 0 ∷ pos 4 ∷ pos 9 ∷ pos 25 ∷ []

abbrev pub first_or_zero : List ℤ → ℤ
first_or_zero [] = pos 0
first_or_zero (d ∷ ds) = d

-- `np.maximum(value, 0)`
abbrev pub at_least_zero : ℤ → ℤ
at_least_zero z = if ltb_ℤ z (pos 0) then pos 0 else z

abbrev digit : ℕ → String
digit n =
    if ltb n 1
    then "0"
    else if ltb n 2
    then "1"
    else if ltb n 3
    then "2"
    else if ltb n 4
    then "3"
    else if ltb n 5
    then "4"
    else if ltb n 6
    then "5"
    else if ltb n 7
    then "6"
    else if ltb n 8
    then "7"
    else if ltb n 9
    then "8"
    else "9"

-- The decimal text of a number; the fuel is more than its digits.
unfoldable pub digits : ℕ → ℕ → String → String
digits zero n text = text
digits (suc fuel) n text =
    let rest = digits fuel (n / 10) (digit (n % 10) ++ text) in
    if ltb n 10 then digit n ++ text else rest

unfoldable pub zeros : ℕ → String → String
zeros zero text = text
zeros (suc n) text = "0" ++ zeros n text

-- `f"{n:0{width}d}"`
unfoldable pub padded : ℕ → ℕ → String
unfolding digits zeros
padded width n = let text = digits (suc n) n "" in zeros (width - count text) text

-- `f"{prefix}{n:0{width}d}"`
unfoldable pub numbered_text : String → ℕ → ℕ → String
unfolding padded
numbered_text prefix width n = prefix ++ padded width n

module _ (rng : Generator) (seed size : ℕ) where
  abbrev pub generated_hub : ℕ → ℤ
  generated_hub index = pos (rng.integers seed size index)

  abbrev delta : ℕ → ℤ
  delta index = first_or_zero (drop (rng.choice seed size index) deltas)

  unfoldable pub generated_reported : ℕ → ℤ
  generated_reported index = at_least_zero (generated_hub index +ℤ delta index)

  -- The bodies of the loop.
  unfoldable pub supplier_row : ℕ → SupplierInventoryRow
  unfolding numbered_text generated_reported
  supplier_row index = record {
    record_index = index;
    supplier_code = numbered_text "SYN-SUPPLIER-" 1 (index % 4);
    product_sku = numbered_text "SYN-SKU-" 7 index;
    warehouse_code = numbered_text "SYN-WH-" 2 (index % 25);
    reported_quantity = generated_reported index;
  }

  unfoldable pub hub_row : ℕ → HubInventoryRow
  unfolding numbered_text
  hub_row index = record {
    record_index = index;
    product_sku = numbered_text "SYN-SKU-" 7 index;
    warehouse_code = numbered_text "SYN-WH-" 2 (index % 25);
    hub_quantity = generated_hub index;
  }

  -- `for index in range(row_count)`: the rounds that are left, and the index.
  unfoldable pub supplier_rows : ℕ → ℕ → List SupplierInventoryRow
  unfolding supplier_row
  supplier_rows zero index = []
  supplier_rows (suc n) index = supplier_row index ∷ supplier_rows n (index + 1)

  unfoldable pub hub_rows : ℕ → ℕ → List HubInventoryRow
  unfolding hub_row
  hub_rows zero index = []
  hub_rows (suc n) index = hub_row index ∷ hub_rows n (index + 1)

unfoldable pub generate_reconciliation_inputs :
    Generator → ℕ → ℕ → Result (List SupplierInventoryRow × List HubInventoryRow)
unfolding supplier_rows hub_rows
generate_reconciliation_inputs rng row_count seed =
    if ltb row_count 1
    then err other_error
    else ok (supplier_rows rng seed row_count row_count 0, hub_rows rng seed row_count row_count 0)

padded_runs : (padded 7 42 ≡ "0000042") × (padded 1 3 ≡ "3") × (padded 2 7 ≡ "07")
unfolding padded
padded_runs = (refl, refl, refl)
