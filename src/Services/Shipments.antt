-- ===== src/Services/Shipments.antt =====
-- services.py: shipments and their events; `process_carrier_event` of integration_services.py.
use supply_chain_integration.Base.{
  String, Option, none, some, Bool, not, ◌&&◌, List, [], ◌∷◌, ◌++◌, ◌==◌, str_eq, find, select,
  update, is_none, if◌then◌else◌,
}
use supply_chain_integration.Domain.Enums.{
  ShipmentStatus, ShipmentEventType, is_picked_up, is_delivered,
}
use supply_chain_integration.Domain.Errors.{resource_not_found, resource_conflict}
use supply_chain_integration.Domain.Shipments.{status_after_event}
use supply_chain_integration.Partners.Canonical.{CanonicalShipmentEvent}
use supply_chain_integration.Store.Rows.{Uuid, Time}
use supply_chain_integration.Store.Rows.Trade.{Shipment, ShipmentEvent}
use supply_chain_integration.Store.Session.{
  Tx, raise, lift, gets, modify, or_raise, raise_if, fresh_id, commit_or_conflict, ◌>>=◌, ◌>>◌,
}
use supply_chain_integration.Services.Catalog.{get_supplier}
use supply_chain_integration.Services.Orders.{get_purchase_order}

-- ShipmentCreate and ShipmentEventCreate of api/schemas.py.
pub record ShipmentCreate : Type 0 where
  pub supplier_id : Uuid
  pub purchase_order_id : Uuid
  pub tracking_reference : String
  pub shipped_at : Option Time

pub record ShipmentEventCreate : Type 0 where
  pub external_event_id : String
  pub event_type : ShipmentEventType
  pub occurred_at : Time
  pub reason_code : Option String

abbrev pub has_shipment_id : Uuid → Shipment → Bool
has_shipment_id id s = s.id == id

unfoldable pub get_shipment : Uuid → Tx Shipment
get_shipment id db = or_raise (find (has_shipment_id id) db.shipments) resource_not_found db

abbrev pub new_shipment : Uuid → ShipmentCreate → Shipment
new_shipment id request = record {
  id = id;
  supplier_id = request.supplier_id;
  purchase_order_id = request.purchase_order_id;
  tracking_reference = request.tracking_reference;
  status = ShipmentStatus.planned;
  shipped_at = request.shipped_at;
  delivered_at = none;
}

unfoldable pub create_shipment : ShipmentCreate → Tx Shipment
unfolding get_supplier get_purchase_order get_shipment
create_shipment request = do
  get_supplier request.supplier_id
  order ← get_purchase_order request.purchase_order_id
  raise_if (not (order.supplier_id == request.supplier_id)) resource_conflict
  id ← fresh_id
  modify (λ db. record db { shipments = db.shipments ++ new_shipment id request ∷ [] })
  commit_or_conflict
  get_shipment id

abbrev pub is_event_of : Uuid → String → ShipmentEvent → Bool
is_event_of shipment_id external_event_id e =
    e.shipment_id == shipment_id && str_eq e.external_event_id external_event_id

-- The attributes that an accepted event assigns.
unfoldable pub moved : ShipmentEventCreate → ShipmentStatus → Shipment → Shipment
moved request status s = record s {
  status = status;
  shipped_at =
      if is_picked_up request.event_type && is_none s.shipped_at
      then some request.occurred_at
      else s.shipped_at;
  delivered_at =
      if is_delivered request.event_type then some request.occurred_at else s.delivered_at;
}

abbrev pub new_event : Uuid → Uuid → ShipmentEventCreate → Time → ShipmentEvent
new_event id shipment_id request now = record {
  id = id;
  shipment_id = shipment_id;
  external_event_id = request.external_event_id;
  event_type = request.event_type;
  occurred_at = request.occurred_at;
  reason_code = request.reason_code;
  received_at = now;
}

unfoldable pub add_shipment_event : Uuid → ShipmentEventCreate → Time → Tx Shipment
unfolding get_shipment moved
add_shipment_event shipment_id request now = do
  shipment ← get_shipment shipment_id
  known ← gets (λ db. find (is_event_of shipment_id request.external_event_id) db.shipment_events)
  raise_if (not (is_none known)) resource_conflict
  status ← lift (status_after_event shipment.status request.event_type)
  modify (λ db. record db {
    shipments = update (has_shipment_id shipment_id) (moved request status) db.shipments;
  })
  id ← fresh_id
  modify (λ db. record db {
    shipment_events = db.shipment_events ++ new_event id shipment_id request now ∷ [];
  })
  commit_or_conflict
  get_shipment shipment_id

abbrev event_request : CanonicalShipmentEvent → ShipmentEventCreate
event_request event = record {
  external_event_id = event.external_event_id;
  event_type = event.event_type;
  occurred_at = event.occurred_at;
  reason_code = event.reason_code;
}

-- The event belongs to the one shipment with its tracking reference.
unfoldable pub route_event : CanonicalShipmentEvent → Time → List Shipment → Tx Shipment
route_event event now [] = raise resource_not_found
route_event event now (s ∷ []) = add_shipment_event s.id (event_request event) now
route_event event now (s ∷ t ∷ rest) = raise resource_conflict

unfoldable pub process_carrier_event : CanonicalShipmentEvent → Time → Tx Shipment
unfolding route_event select
process_carrier_event event now = do
  shipments ←
      gets (λ db. select (λ s. str_eq s.tracking_reference event.tracking_reference) db.shipments)
  route_event event now shipments
