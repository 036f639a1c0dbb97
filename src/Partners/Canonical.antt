-- ===== src/Partners/Canonical.antt =====
-- integrations/base.py. The text of an adapter error's message is left out: no code reads it.
use supply_chain_integration.Base.{ℕ, String, Option, List}
use supply_chain_integration.Domain.Enums.{ShipmentEventType, UnitOfMeasure}
use supply_chain_integration.Domain.Decimal.{Decimal}

pub record CanonicalInventoryRecord : Type 0 where
  pub source_reference : String
  pub source_row : ℕ
  pub external_sku : String
  pub external_location : String
  pub observed_at : ℕ
  pub source_unit : UnitOfMeasure
  pub on_hand_quantity : Decimal
  pub reserved_quantity : Decimal
  pub units_per_source_unit : Option Decimal
  pub raw_fragment : List (String × String)

pub record AdapterError : Type 0 where
  pub code : String
  pub source_row : Option ℕ
  pub field_name : Option String
  pub raw_fragment : Option (List (String × String))

pub record InventoryAdapterResult : Type 0 where
  pub records : List CanonicalInventoryRecord
  pub errors : List AdapterError

pub record CanonicalShipmentEvent : Type 0 where
  pub external_event_id : String
  pub tracking_reference : String
  pub event_type : ShipmentEventType
  pub occurred_at : ℕ
  pub reason_code : Option String
