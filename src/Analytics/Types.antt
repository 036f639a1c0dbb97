-- ===== src/Analytics/Types.antt =====
-- analytics/types.py: the rows of the reconciliation. Quantities are whole numbers.
use supply_chain_integration.Base.{ℕ, String, Bool, List}
use supply_chain_integration.Base.Int.{ℤ}

pub record SupplierInventoryRow : Type 0 where
  pub record_index : ℕ
  pub supplier_code : String
  pub product_sku : String
  pub warehouse_code : String
  pub reported_quantity : ℤ

pub record HubInventoryRow : Type 0 where
  pub record_index : ℕ
  pub product_sku : String
  pub warehouse_code : String
  pub hub_quantity : ℤ

pub record ReconciliationResult : Type 0 where
  pub record_index : ℕ
  pub supplier_code : String
  pub product_sku : String
  pub warehouse_code : String
  pub reported_quantity : ℤ
  pub hub_quantity : ℤ
  pub difference_quantity : ℤ
  pub matches : Bool

pub record ReconciliationExecution : Type 0 where
  pub results : List ReconciliationResult
  pub dataframe_bytes : ℕ
