-- ===== src/Store/Rows/Trade.antt =====
-- models.py: purchase orders with their lines, shipments and their events.
use supply_chain_integration.Base.{ℕ, String, Option, List}
use supply_chain_integration.Domain.Enums.{PurchaseOrderStatus, ShipmentStatus, ShipmentEventType}
use supply_chain_integration.Domain.Decimal.{Decimal}

pub record PurchaseOrderLine : Type 0 where
  pub id : ℕ
  pub line_number : ℕ
  pub product_id : ℕ
  pub ordered_quantity : Decimal
  pub received_quantity : Decimal

-- `lines` is the relationship, in the order of the line numbers; dates are numbers of days.
pub record PurchaseOrder : Type 0 where
  pub id : ℕ
  pub supplier_id : ℕ
  pub external_reference : String
  pub status : PurchaseOrderStatus
  pub order_date : ℕ
  pub expected_date : Option ℕ
  pub lines : List PurchaseOrderLine

pub record Shipment : Type 0 where
  pub id : ℕ
  pub supplier_id : ℕ
  pub purchase_order_id : ℕ
  pub tracking_reference : String
  pub status : ShipmentStatus
  pub shipped_at : Option ℕ
  pub delivered_at : Option ℕ

pub record ShipmentEvent : Type 0 where
  pub id : ℕ
  pub shipment_id : ℕ
  pub external_event_id : String
  pub event_type : ShipmentEventType
  pub occurred_at : ℕ
  pub reason_code : Option String
  pub received_at : ℕ
