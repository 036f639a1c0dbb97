-- ===== src/Domain/Shipments.antt =====
-- domain/shipments.py: the table of allowed transitions, and the function that applies an event.
-- The proofs about whole histories of events are in the module below.
pub mod Histories
use supply_chain_integration.Base.{Option, none, some}
use supply_chain_integration.Domain.Enums.{ShipmentStatus, ShipmentEventType}
use supply_chain_integration.Domain.Errors.{Result, ok, err, domain_validation}

-- `_ALLOWED_TRANSITIONS[status].get(event)`
unfoldable pub allowed_transitions : ShipmentStatus → ShipmentEventType → Option ShipmentStatus
allowed_transitions ShipmentStatus.planned ShipmentEventType.picked_up =
    some ShipmentStatus.picked_up
allowed_transitions ShipmentStatus.planned ShipmentEventType.delayed = some ShipmentStatus.delayed
allowed_transitions ShipmentStatus.planned ShipmentEventType.cancelled =
    some ShipmentStatus.cancelled
allowed_transitions ShipmentStatus.picked_up ShipmentEventType.in_transit =
    some ShipmentStatus.in_transit
allowed_transitions ShipmentStatus.picked_up ShipmentEventType.delayed = some ShipmentStatus.delayed
allowed_transitions ShipmentStatus.picked_up ShipmentEventType.delivered =
    some ShipmentStatus.delivered
allowed_transitions ShipmentStatus.picked_up ShipmentEventType.cancelled =
    some ShipmentStatus.cancelled
allowed_transitions ShipmentStatus.in_transit ShipmentEventType.delayed =
    some ShipmentStatus.delayed
allowed_transitions ShipmentStatus.in_transit ShipmentEventType.delivered =
    some ShipmentStatus.delivered
allowed_transitions ShipmentStatus.in_transit ShipmentEventType.cancelled =
    some ShipmentStatus.cancelled
allowed_transitions ShipmentStatus.delayed ShipmentEventType.in_transit =
    some ShipmentStatus.in_transit
allowed_transitions ShipmentStatus.delayed ShipmentEventType.delivered =
    some ShipmentStatus.delivered
allowed_transitions ShipmentStatus.delayed ShipmentEventType.cancelled =
    some ShipmentStatus.cancelled
allowed_transitions current event = none

abbrev or_invalid : Option ShipmentStatus → Result ShipmentStatus
or_invalid none = err domain_validation
or_invalid (some next) = ok next

unfoldable pub status_after_event : ShipmentStatus → ShipmentEventType → Result ShipmentStatus
unfolding allowed_transitions
status_after_event current_status event_type =
    or_invalid (allowed_transitions current_status event_type)
