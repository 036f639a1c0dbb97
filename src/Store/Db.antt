-- ===== src/Store/Db.antt =====
-- The tables of the database. `uuid4` draws an id that was never used: the state counts them.
use supply_chain_integration.Base.{ℕ, List, []}
use supply_chain_integration.Store.Rows.Catalog.{
  Supplier, Product, Warehouse, InventoryPosition, SupplierProductMapping, SupplierWarehouseMapping,
}
use supply_chain_integration.Store.Rows.Trade.{PurchaseOrder, Shipment, ShipmentEvent}
use supply_chain_integration.Store.Rows.Imports.{
  ImportJob, ImportAttempt, OperationEvent, ImportJobError, InventorySnapshot,
}

pub record Db : Type 0 where
  pub next_id : ℕ
  pub suppliers : List Supplier
  pub products : List Product
  pub warehouses : List Warehouse
  pub positions : List InventoryPosition
  pub product_mappings : List SupplierProductMapping
  pub warehouse_mappings : List SupplierWarehouseMapping
  pub orders : List PurchaseOrder
  pub shipments : List Shipment
  pub shipment_events : List ShipmentEvent
  pub jobs : List ImportJob
  pub attempts : List ImportAttempt
  pub job_errors : List ImportJobError
  pub snapshots : List InventorySnapshot
  pub events : List OperationEvent

abbrev pub empty : Db
empty = record {
  next_id = 0;
  suppliers = [];
  products = [];
  warehouses = [];
  positions = [];
  product_mappings = [];
  warehouse_mappings = [];
  orders = [];
  shipments = [];
  shipment_events = [];
  jobs = [];
  attempts = [];
  job_errors = [];
  snapshots = [];
  events = [];
}
