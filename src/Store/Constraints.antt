-- ===== src/Store/Constraints.antt =====
-- models.py: the unique constraints and the check constraints of the tables. The foreign keys are
-- left out: no operation deletes a row, and each one reads the row that it is about to refer to.
use supply_chain_integration.Base.{
  Bool, true, false, not, ◌&&◌, Option, none, some, String, ◌≡◌, ltb, ◌==◌, str_eq, is_text, unique,
  every, arith,
}
use supply_chain_integration.Base.Int.{ltb_ℤ}
use supply_chain_integration.Domain.Enums.{same_source}
use supply_chain_integration.Domain.Decimal.{is_negative, Decimal, zero_quantity}
use supply_chain_integration.Store.Rows.Catalog.{
  Supplier, Product, Warehouse, InventoryPosition, SupplierProductMapping, SupplierWarehouseMapping,
}
use supply_chain_integration.Store.Rows.Trade.{
  PurchaseOrderLine, PurchaseOrder, Shipment, ShipmentEvent,
}
use supply_chain_integration.Store.Rows.Imports.{ImportJob, ImportAttempt, InventorySnapshot}
use supply_chain_integration.Store.Db.{Db}

abbrev is_positive : Decimal → Bool
is_positive d = ltb_ℤ zero_quantity d

-- Two NULLs are different for a unique constraint.
abbrev same_option_text : Option String → Option String → Bool
same_option_text (some s) o = is_text o s
same_option_text none o = false

abbrev pub same_supplier_code : Supplier → Supplier → Bool
same_supplier_code a b = str_eq a.code b.code

abbrev pub same_product_sku : Product → Product → Bool
same_product_sku a b = str_eq a.sku b.sku

abbrev pub same_warehouse_code : Warehouse → Warehouse → Bool
same_warehouse_code a b = str_eq a.code b.code

abbrev pub same_position : InventoryPosition → InventoryPosition → Bool
same_position a b = a.warehouse_id == b.warehouse_id && a.product_id == b.product_id

abbrev pub position_checks : InventoryPosition → Bool
position_checks p =
    not (is_negative p.on_hand_quantity) && not (is_negative p.reserved_quantity) && ltb 0 p.version

abbrev pub same_product_mapping : SupplierProductMapping → SupplierProductMapping → Bool
same_product_mapping a b = a.supplier_id == b.supplier_id && str_eq a.external_sku b.external_sku

abbrev pub product_mapping_checks : SupplierProductMapping → Bool
product_mapping_checks m = is_positive m.units_per_source_unit && ltb 0 m.version

abbrev pub same_warehouse_mapping : SupplierWarehouseMapping → SupplierWarehouseMapping → Bool
same_warehouse_mapping a b =
    a.supplier_id == b.supplier_id && str_eq a.external_location b.external_location

abbrev pub warehouse_mapping_checks : SupplierWarehouseMapping → Bool
warehouse_mapping_checks m = ltb 0 m.version

abbrev pub same_order : PurchaseOrder → PurchaseOrder → Bool
same_order a b = a.supplier_id == b.supplier_id && str_eq a.external_reference b.external_reference

abbrev pub same_line_number : PurchaseOrderLine → PurchaseOrderLine → Bool
same_line_number a b = a.line_number == b.line_number

abbrev pub same_line_product : PurchaseOrderLine → PurchaseOrderLine → Bool
same_line_product a b = a.product_id == b.product_id

abbrev pub line_checks : PurchaseOrderLine → Bool
line_checks l = is_positive l.ordered_quantity && not (is_negative l.received_quantity)

-- The constraints of `purchase_order_lines` compare lines of one order.
abbrev pub order_checks : PurchaseOrder → Bool
order_checks o =
    unique same_line_number o.lines && unique same_line_product o.lines && every line_checks o.lines

abbrev pub same_tracking : Shipment → Shipment → Bool
same_tracking a b =
    a.supplier_id == b.supplier_id && str_eq a.tracking_reference b.tracking_reference

abbrev pub same_shipment_event : ShipmentEvent → ShipmentEvent → Bool
same_shipment_event a b =
    a.shipment_id == b.shipment_id && str_eq a.external_event_id b.external_event_id

abbrev pub same_submission : ImportJob → ImportJob → Bool
same_submission a b =
    a.supplier_id == b.supplier_id
    && same_source a.source_type b.source_type
    && same_option_text a.idempotency_key b.idempotency_key

abbrev pub job_checks : ImportJob → Bool
job_checks j = ltb 0 j.max_attempts

abbrev pub same_attempt : ImportAttempt → ImportAttempt → Bool
same_attempt a b = a.import_job_id == b.import_job_id && a.attempt_number == b.attempt_number

abbrev pub attempt_checks : ImportAttempt → Bool
attempt_checks a = ltb 0 a.attempt_number

abbrev pub same_source_record : InventorySnapshot → InventorySnapshot → Bool
same_source_record a b =
    a.supplier_id == b.supplier_id
    && str_eq a.source_reference b.source_reference
    && str_eq a.external_sku b.external_sku
    && str_eq a.external_location b.external_location

abbrev pub snapshot_checks : InventorySnapshot → Bool
snapshot_checks s =
    not (is_negative s.on_hand_quantity)
    && not (is_negative s.reserved_quantity)
    && is_positive s.units_per_source_unit

-- Every constraint holds in every table.
pub record IsConsistent (db : Db) : Type 0 where
  pub suppliers : unique same_supplier_code db.suppliers ≡ true
  pub products : unique same_product_sku db.products ≡ true
  pub warehouses : unique same_warehouse_code db.warehouses ≡ true
  pub positions : unique same_position db.positions ≡ true
  pub position_values : every position_checks db.positions ≡ true
  pub product_mappings : unique same_product_mapping db.product_mappings ≡ true
  pub product_mapping_values : every product_mapping_checks db.product_mappings ≡ true
  pub warehouse_mappings : unique same_warehouse_mapping db.warehouse_mappings ≡ true
  pub warehouse_mapping_values : every warehouse_mapping_checks db.warehouse_mappings ≡ true
  pub orders : unique same_order db.orders ≡ true
  pub order_values : every order_checks db.orders ≡ true
  pub shipments : unique same_tracking db.shipments ≡ true
  pub shipment_events : unique same_shipment_event db.shipment_events ≡ true
  pub jobs : unique same_submission db.jobs ≡ true
  pub job_values : every job_checks db.jobs ≡ true
  pub attempts : unique same_attempt db.attempts ≡ true
  pub attempt_values : every attempt_checks db.attempts ≡ true
  pub snapshots : unique same_source_record db.snapshots ≡ true
  pub snapshot_values : every snapshot_checks db.snapshots ≡ true

-- The database's own test of the constraints, when the changes of a session are flushed.
unfoldable pub constraints_hold : Db → Bool
constraints_hold db =
    unique same_supplier_code db.suppliers
    && unique same_product_sku db.products
    && unique same_warehouse_code db.warehouses
    && (unique same_position db.positions && every position_checks db.positions)
    && (unique same_product_mapping db.product_mappings
        && every product_mapping_checks db.product_mappings)
    && (unique same_warehouse_mapping db.warehouse_mappings
        && every warehouse_mapping_checks db.warehouse_mappings)
    && (unique same_order db.orders && every order_checks db.orders)
    && unique same_tracking db.shipments
    && unique same_shipment_event db.shipment_events
    && (unique same_submission db.jobs && every job_checks db.jobs)
    && (unique same_attempt db.attempts && every attempt_checks db.attempts)
    && (unique same_source_record db.snapshots && every snapshot_checks db.snapshots)

pub constraints_hold-IsConsistent : (db : Db) → constraints_hold db ≡ true → IsConsistent db
unfolding constraints_hold
constraints_hold-IsConsistent db h = ground arith

pub constraints_hold_of_IsConsistent : (db : Db) → IsConsistent db → constraints_hold db ≡ true
unfolding constraints_hold
constraints_hold_of_IsConsistent db c = ground arith
