-- ===== src/Partners/CarrierC.antt =====
-- integrations/carrier_c.py: the webhook event of Carrier C and its adapter.
use supply_chain_integration.Base.{ℕ, String, Option}
use supply_chain_integration.Domain.Enums.{ShipmentEventType}
use supply_chain_integration.Partners.Canonical.{CanonicalShipmentEvent}

pub record CarrierCEvent : Type 0 where
  pub event_id : String
  pub tracking_number : String
  pub event : ShipmentEventType
  pub event_time : ℕ
  pub reason_code : Option String

unfoldable pub adapt : CarrierCEvent → CanonicalShipmentEvent
adapt payload = record {
  external_event_id = payload.event_id;
  tracking_reference = payload.tracking_number;
  event_type = payload.event;
  occurred_at = payload.event_time;
  reason_code = payload.reason_code;
}
