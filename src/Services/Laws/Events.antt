-- ===== src/Services/Laws/Events.antt =====
-- The events of a shipment: each is taken once, and moves the shipment along its life cycle.
use supply_chain_integration.Base.{
  ◌≡◌, refl, sym, ◌∙◌, true, false, inl, inr, some, Option-cases, [], ◌∷◌, ◌++◌, eq_iff, is_none,
  find, update, find-update_self, find-append_last, arith,
}
use supply_chain_integration.Domain.Enums.{ShipmentStatus, is_delivered}
use supply_chain_integration.Domain.Errors.{Result-cases, ok, err, resource_conflict}
use supply_chain_integration.Domain.Shipments.{status_after_event}
use supply_chain_integration.Store.Rows.{Uuid, Time}
use supply_chain_integration.Store.Rows.Trade.{Shipment}
use supply_chain_integration.Store.Db.{Db}
use supply_chain_integration.Store.Session.{commit_or_conflict}
use supply_chain_integration.Services.Shipments.{
  ShipmentEventCreate, has_shipment_id, get_shipment, is_event_of, moved, new_event,
  add_shipment_event,
}

-- What an accepted event has written.
event-writes :
    (id : Uuid) (request : ShipmentEventCreate) (now : Time) (db db' : Db) (s s' : Shipment)
    (status : ShipmentStatus)
    → find (has_shipment_id id) db.shipments ≡ some s
    → status_after_event s.status request.event_type ≡ ok status
    → add_shipment_event id request now db ≡ ok (s', db')
    → (is_none (find (is_event_of id request.external_event_id) db.shipment_events) ≡ true)
      × (db'.shipments ≡ update (has_shipment_id id) (moved request status) db.shipments)
      × (db'.shipment_events ≡ db.shipment_events ++ new_event db.next_id id request now ∷ [])
      × (find (has_shipment_id id) db'.shipments ≡ some s')
unfolding add_shipment_event get_shipment commit_or_conflict
event-writes id request now db db' s s' status found step h = ground arith

event-refused :
    (id : Uuid) (request : ShipmentEventCreate) (now : Time) (db : Db) (s : Shipment)
    → find (has_shipment_id id) db.shipments ≡ some s
    → is_none (find (is_event_of id request.external_event_id) db.shipment_events) ≡ false
    → add_shipment_event id request now db ≡ err resource_conflict
unfolding add_shipment_event get_shipment
event-refused id request now db s found known = ground arith

event-accepted :
    (id : Uuid) (request : ShipmentEventCreate) (now : Time) (db db' : Db) (s' : Shipment)
    → add_shipment_event id request now db ≡ ok (s', db')
    → (s : Shipment) × (status : ShipmentStatus) × (find (has_shipment_id id) db.shipments ≡ some s)
      × (status_after_event s.status request.event_type ≡ ok status)
unfolding add_shipment_event get_shipment
event-accepted id request now db db' s' h =
    elim (Option-cases (find (has_shipment_id id) db.shipments)) [
      | inl missing ↦ absurd (ground arith)
      | inr (s, found) ↦ elim (Result-cases (status_after_event s.status request.event_type)) [
        | inl (e, invalid) ↦ absurd (ground arith)
        | inr (status, step) ↦ (s, status, found, step)
      ]
    ]

-- When an event is added to a shipment, the shipment was there, no event with the external id was
-- known for it, the life cycle allowed the event, and the shipment now in the database has the
-- status that it leads to and, for a delivery, the instant of the event as its delivery; and every
-- later event of the shipment with the same external id is a conflict.
pub add_shipment_event_lem :
    (id : Uuid) (request : ShipmentEventCreate) (now : Time) (db db' : Db) (s' : Shipment)
    → add_shipment_event id request now db ≡ ok (s', db')
    → (s : Shipment) × (find (has_shipment_id id) db.shipments ≡ some s)
      × (is_none (find (is_event_of id request.external_event_id) db.shipment_events) ≡ true)
      × (status_after_event s.status request.event_type ≡ ok s'.status)
      × (find (has_shipment_id id) db'.shipments ≡ some s')
      × (is_delivered request.event_type ≡ true → s'.delivered_at ≡ some request.occurred_at)
      × ((again : ShipmentEventCreate) (later : Time)
          → again.external_event_id ≡ request.external_event_id
          → add_shipment_event id again later db' ≡ err resource_conflict)
unfolding moved
add_shipment_event_lem id request now db db' s' h =
    let (s, status, found, step) = event-accepted id request now db db' s' h in
    let (fresh, shipments, events, there) =
      event-writes id request now db db' s s' status found step h in
    let moves =
      find-update_self (has_shipment_id id) (moved request status) (λ x. refl) db.shipments s
        found in
    let same : some s' ≡ some (moved request status s) = sym there ∙ rw shipments moves in
    (
      s,
      found,
      fresh,
      ground arith,
      there,
      λ delivered. ground arith,
      λ again later key. event-refused id again later db' s' there (
          rw (key, events)
            (find-append_last (is_event_of id request.external_event_id) db.shipment_events
              (new_event db.next_id id request now)
              (ground (arith, eq_iff request.external_event_id request.external_event_id)))),
    )
