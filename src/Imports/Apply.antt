-- ===== src/Imports/Apply.antt =====
-- `_apply_inventory_result` and `_validate_and_apply_record` of integration_services.py: a record of
-- the partner becomes a position and a snapshot, or an error of the job.
use supply_chain_integration.Base.{
  suc, String, Option, none, some, Bool, false, not, ◌&&◌, ◌||◌, List, [], ◌∷◌, ◌++◌, ◌==◌, str_eq,
  is_none, find, any, update, if◌then◌else◌,
}
use supply_chain_integration.Base.Int.{eq_ℤ}
use supply_chain_integration.Domain.Enums.{same_unit}
use supply_chain_integration.Domain.Errors.{other_error}
use supply_chain_integration.Domain.Decimal.{Decimal, times, stored, fits_column}
use supply_chain_integration.Partners.Canonical.{CanonicalInventoryRecord, AdapterError}
use supply_chain_integration.Store.Rows.{Uuid}
use supply_chain_integration.Store.Rows.Catalog.{
  InventoryPosition, SupplierProductMapping, SupplierWarehouseMapping,
}
use supply_chain_integration.Store.Rows.Imports.{ImportJob, InventorySnapshot}
use supply_chain_integration.Store.Db.{Db}
use supply_chain_integration.Store.Session.{
  Tx, gets, modify, fresh_id, raise_if, flush, ◌>>=◌, ◌>>◌,
}

-- The tuple `source_key`.
pub record SourceKey : Type 0 where
  pub source_reference : String
  pub external_sku : String
  pub external_location : String

abbrev pub source_key : CanonicalInventoryRecord → SourceKey
source_key r = record {
  source_reference = r.source_reference;
  external_sku = r.external_sku;
  external_location = r.external_location;
}

abbrev pub same_key : SourceKey → SourceKey → Bool
same_key a b =
    str_eq a.source_reference b.source_reference
    && str_eq a.external_sku b.external_sku
    && str_eq a.external_location b.external_location

abbrev pub is_snapshot_of : Uuid → SourceKey → InventorySnapshot → Bool
is_snapshot_of supplier_id key s =
    s.supplier_id == supplier_id
    && str_eq s.source_reference key.source_reference
    && str_eq s.external_sku key.external_sku
    && str_eq s.external_location key.external_location

abbrev pub is_product_mapping : Uuid → String → SupplierProductMapping → Bool
is_product_mapping supplier_id sku m =
    m.supplier_id == supplier_id && str_eq m.external_sku sku && m.active

abbrev pub is_warehouse_mapping : Uuid → String → SupplierWarehouseMapping → Bool
is_warehouse_mapping supplier_id location m =
    m.supplier_id == supplier_id && str_eq m.external_location location && m.active

abbrev pub is_position : Uuid → Uuid → InventoryPosition → Bool
is_position warehouse_id product_id p = p.warehouse_id == warehouse_id && p.product_id == product_id

-- `_record_error`
abbrev pub record_error : CanonicalInventoryRecord → String → Option String → AdapterError
record_error r code field_name = record {
  code = code;
  source_row = some r.source_row;
  field_name = field_name;
  raw_fragment = some r.raw_fragment;
}

abbrev differs : Option Decimal → Decimal → Bool
differs none factor = false
differs (some d) factor = not (eq_ℤ d factor)

-- What the tests before the writes decide: an error, or the two mappings to apply.
pub data Check : Type 0 where
  rejected : AdapterError → Check
  accepted : SupplierProductMapping → SupplierWarehouseMapping → Check

-- The tests of the unit and of the conversion factor.
unfoldable pub check_units :
    CanonicalInventoryRecord → SupplierProductMapping → SupplierWarehouseMapping → Check
check_units r product_mapping warehouse_mapping =
    if not (same_unit product_mapping.source_unit r.source_unit)
    then rejected (record_error r "source_unit_mismatch" (some "source_unit"))
    else if differs r.units_per_source_unit product_mapping.units_per_source_unit
    then rejected (record_error r "unit_conversion_mismatch" (some "units_per_source_unit"))
    else accepted product_mapping warehouse_mapping

abbrev check_warehouse :
    CanonicalInventoryRecord → SupplierProductMapping → Option SupplierWarehouseMapping → Check
check_warehouse r product_mapping none =
    rejected (record_error r "warehouse_mapping_not_found" (some "external_location"))
check_warehouse r product_mapping (some warehouse_mapping) =
    check_units r product_mapping warehouse_mapping

abbrev check_product :
    CanonicalInventoryRecord
    → Option SupplierProductMapping
    → Option SupplierWarehouseMapping
    → Check
check_product r none warehouse_mapping =
    rejected (record_error r "product_mapping_not_found" (some "external_sku"))
check_product r (some product_mapping) warehouse_mapping =
    check_warehouse r product_mapping warehouse_mapping

unfoldable pub check_mappings : Uuid → CanonicalInventoryRecord → Db → Check
unfolding check_units
check_mappings supplier_id r db =
    check_product r (find (is_product_mapping supplier_id r.external_sku) db.product_mappings)
      (find (is_warehouse_mapping supplier_id r.external_location) db.warehouse_mappings)

-- `source_key in seen_source_records or session.scalar(...)`
unfoldable pub already_imported : Uuid → CanonicalInventoryRecord → List SourceKey → Db → Bool
already_imported supplier_id r seen db =
    any (same_key (source_key r)) seen
    || not (is_none (find (is_snapshot_of supplier_id (source_key r)) db.snapshots))

abbrev pub repositioned : Decimal → Decimal → InventoryPosition → InventoryPosition
repositioned on_hand reserved p = record p {
  on_hand_quantity = on_hand;
  reserved_quantity = reserved;
  version = suc p.version;
}

-- A new position of this warehouse and product, or new quantities and the next version of it.
unfoldable pub upsert_position :
    Uuid → Uuid → Decimal → Decimal → Option InventoryPosition → Tx (Unit {0})
upsert_position warehouse_id product_id on_hand reserved none = do
  id ← fresh_id
  modify (λ db. record db {
    positions =
        db.positions
        ++ record {
          id = id;
          warehouse_id = warehouse_id;
          product_id = product_id;
          on_hand_quantity = on_hand;
          reserved_quantity = reserved;
          version = 1;
        }
          ∷ [];
  })
upsert_position warehouse_id product_id on_hand reserved (some p) = modify (λ db. record db {
  positions =
      update (is_position warehouse_id product_id) (repositioned on_hand reserved) db.positions;
})

abbrev pub snapshot_of :
    Uuid
    → ImportJob
    → Uuid
    → CanonicalInventoryRecord
    → SupplierProductMapping
    → SupplierWarehouseMapping
    → InventorySnapshot
snapshot_of id job supplier_id r product_mapping warehouse_mapping = record {
  id = id;
  import_job_id = job.id;
  supplier_id = supplier_id;
  product_id = product_mapping.product_id;
  warehouse_id = warehouse_mapping.warehouse_id;
  source_reference = r.source_reference;
  external_sku = r.external_sku;
  external_location = r.external_location;
  observed_at = r.observed_at;
  on_hand_quantity = stored (times r.on_hand_quantity product_mapping.units_per_source_unit);
  reserved_quantity = stored (times r.reserved_quantity product_mapping.units_per_source_unit);
  source_unit = r.source_unit;
  units_per_source_unit = product_mapping.units_per_source_unit;
  product_mapping_version = product_mapping.version;
  warehouse_mapping_version = warehouse_mapping.version;
  source_row = r.source_row;
  raw_fragment = r.raw_fragment;
}

-- Both products have a place in their columns.
abbrev pub has_room : CanonicalInventoryRecord → SupplierProductMapping → Bool
has_room r pm =
    fits_column (times r.on_hand_quantity pm.units_per_source_unit)
    && fits_column (times r.reserved_quantity pm.units_per_source_unit)

-- The writes for a record that passed every test. The columns round the products, and a product
-- that is too large for them is an error of the driver when the session is flushed.
unfoldable pub apply_record :
    ImportJob
    → Uuid
    → CanonicalInventoryRecord
    → SupplierProductMapping
    → SupplierWarehouseMapping
    → Tx (Unit {0})
unfolding upsert_position stored fits_column
apply_record job supplier_id r pm wm = do
  position ← gets (λ db. find (is_position wm.warehouse_id pm.product_id) db.positions)
  upsert_position wm.warehouse_id pm.product_id
      (stored (times r.on_hand_quantity pm.units_per_source_unit))
      (stored (times r.reserved_quantity pm.units_per_source_unit)) position
  id ← fresh_id
  modify
      (λ db. record db { snapshots = db.snapshots ++ snapshot_of id job supplier_id r pm wm ∷ [] })
  raise_if (not (has_room r pm)) other_error
  flush
