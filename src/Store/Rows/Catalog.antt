-- ===== src/Store/Rows/Catalog.antt =====
-- models.py: the reference data, the inventory positions and the mappings of partner names.
use supply_chain_integration.Base.{ℕ, String, Bool}
use supply_chain_integration.Domain.Enums.{RecordStatus, UnitOfMeasure}
use supply_chain_integration.Domain.Decimal.{Decimal}

pub record Supplier : Type 0 where
  pub id : ℕ
  pub code : String
  pub name : String
  pub status : RecordStatus

pub record Product : Type 0 where
  pub id : ℕ
  pub sku : String
  pub name : String
  pub base_unit : UnitOfMeasure
  pub status : RecordStatus

pub record Warehouse : Type 0 where
  pub id : ℕ
  pub code : String
  pub name : String
  pub timezone : String
  pub status : RecordStatus

pub record InventoryPosition : Type 0 where
  pub id : ℕ
  pub warehouse_id : ℕ
  pub product_id : ℕ
  pub on_hand_quantity : Decimal
  pub reserved_quantity : Decimal
  pub version : ℕ

pub record SupplierProductMapping : Type 0 where
  pub id : ℕ
  pub supplier_id : ℕ
  pub external_sku : String
  pub product_id : ℕ
  pub source_unit : UnitOfMeasure
  pub units_per_source_unit : Decimal
  pub version : ℕ
  pub active : Bool

pub record SupplierWarehouseMapping : Type 0 where
  pub id : ℕ
  pub supplier_id : ℕ
  pub external_location : String
  pub warehouse_id : ℕ
  pub version : ℕ
  pub active : Bool
