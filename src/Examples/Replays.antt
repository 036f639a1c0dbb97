-- ===== src/Examples/Replays.antt =====
-- The theorems on replays, with their route, and on the events of shipments.
use supply_chain_integration.Base.{
  false, List, ◌≡◌, refl, String, some, none, [], ◌∷◌, Bool, true, is_none, find, any, every,
  unique, update,
}
use supply_chain_integration.Domain.Enums.{
  ShipmentStatus, ShipmentEventType, is_failed, is_queued, is_delivered,
}
use supply_chain_integration.Domain.Errors.{
  Exn, Result, ok, err, permanent_import, resource_conflict,
}
use supply_chain_integration.Domain.Shipments.{status_after_event}
use supply_chain_integration.Settings.{default_settings}
use supply_chain_integration.Objects.{put, get}
use supply_chain_integration.Objects.Keys.{build_raw_object_key}
use supply_chain_integration.Store.Rows.{Bytes, Time, Uuid}
use supply_chain_integration.Store.Rows.Trade.{Shipment}
use supply_chain_integration.Store.Rows.Imports.{ImportJob}
use supply_chain_integration.Store.Db.{Db}
use supply_chain_integration.Store.Session.{flush, commit_or_conflict}
use supply_chain_integration.Store.Constraints.{constraints_hold}
use supply_chain_integration.Imports.Jobs.{
  find_job, find_current_attempt, get_supplier_by_code, record_import_event, set_job, set_attempt,
  add_attempt,
}
use supply_chain_integration.Imports.Queue.{
  find_submission, submit_for, queue_job, submit_inventory_import,
}
use supply_chain_integration.Imports.Payload.{load_import_payload}
use supply_chain_integration.Imports.Failure.Policy.{classify_import_failure, first_chars}
use supply_chain_integration.Imports.Failure.Record.{record_import_failure}
use supply_chain_integration.Imports.Replay.{replay_failed_import}
use supply_chain_integration.Imports.Replay.Laws.{replay_failed_import_lem}
use supply_chain_integration.Services.Shipments.{
  ShipmentEventCreate, has_shipment_id, is_event_of, add_shipment_event, get_shipment, moved,
}
use supply_chain_integration.Services.Laws.Events.{add_shipment_event_lem}
use supply_chain_integration.Imports.Failure.Record.{FailureDisposition}
use supply_chain_integration.Imports.Steps.Preservation.{IsValid, fail-IsValid}
use supply_chain_integration.Worker.Broker.{Broker, accepted}
use supply_chain_integration.Api.Imports.{System, replay_failed}
use supply_chain_integration.Api.Replays.{Replays, replay_failed-Replays}
use supply_chain_integration.Examples.{
  default_range, queued_db-IsConsistent, queued_db-IsSound, Objects, client, ext, isoformat, stored,
  one_supplier, queued_db, queued,
}

abbrev describe : Exn → String
describe error = "failed"

abbrev end_of : {A : Type 0} → Result (A × Db) → Db
end_of (ok (a, db)) = db
end_of (err e) = one_supplier

-- The job of the queue, after a failure that is not retried.
abbrev failed_db : Db
failed_db =
    end_of (
      record_import_failure default_settings describe "worker" none 1 permanent_import 200
        queued_db)

abbrev objects : Objects
objects = (stored.key, 1 ∷ 2 ∷ 3 ∷ []) ∷ []

abbrev replayed : Result ((ImportJob × Bool) × Db) × Objects
replayed =
    replay_failed_import default_settings ext client isoformat 1 "key-2" 500 failed_db objects

abbrev job_of : Result ((ImportJob × Bool) × Db) → ImportJob
job_of (ok ((job, new), db)) = job
job_of (err e) = queued

replay_failed_import_lem_example :
    (original : ImportJob) × (content : Bytes) × (find_job 1 failed_db ≡ some original)
    × (is_failed original.status ≡ true)
    × (load_import_payload ext client original objects ≡ ok content)
    × ("abc" ≡ original.content_sha256)
    × ((job_of replayed.0).content_sha256 ≡ original.content_sha256)
    × ((job_of replayed.0).replay_of_job_id ≡ some original.id)
    × (is_queued (job_of replayed.0).status ≡ true)
    × ((job_of replayed.0).attempt_count ≡ 0)
    × (find_job 1 (end_of replayed.0) ≡ some original)
unfolding replay_failed_import record_import_failure find_job find find_current_attempt
    load_import_payload get set_job set_attempt add_attempt record_import_event flush
    constraints_hold unique any every update classify_import_failure first_chars
    submit_inventory_import get_supplier_by_code find_submission put build_raw_object_key queue_job
    commit_or_conflict submit_for
replay_failed_import_lem_example =
    replay_failed_import_lem default_settings ext client isoformat 1 "key-2" 500 failed_db
      (end_of replayed.0) objects replayed.1 (job_of replayed.0) refl

abbrev parcel : Shipment
parcel = record {
  id = 3;
  supplier_id = 0;
  purchase_order_id = 2;
  tracking_reference = "T-1";
  status = ShipmentStatus.in_transit;
  shipped_at = some 10;
  delivered_at = none;
}

abbrev shipped_db : Db
shipped_db = record one_supplier { next_id = 9; shipments = parcel ∷ [] }

abbrev delivery : ShipmentEventCreate
delivery = record {
  external_event_id = "E-1";
  event_type = ShipmentEventType.delivered;
  occurred_at = 40;
  reason_code = none;
}

abbrev delivered : Result (Shipment × Db)
delivered = add_shipment_event 3 delivery 50 shipped_db

abbrev shipment_of : Result (Shipment × Db) → Shipment
shipment_of (ok (s, db)) = s
shipment_of (err e) = parcel

add_shipment_event_lem_example :
    (s : Shipment) × (find (has_shipment_id 3) shipped_db.shipments ≡ some s)
    × (is_none (find (is_event_of 3 "E-1") shipped_db.shipment_events) ≡ true)
    × (status_after_event s.status ShipmentEventType.delivered ≡ ok (shipment_of delivered).status)
    × (find (has_shipment_id 3) (end_of delivered).shipments ≡ some (shipment_of delivered))
    × (is_delivered ShipmentEventType.delivered ≡ true
        → (shipment_of delivered).delivered_at ≡ some 40)
    × ((again : ShipmentEventCreate) (later : Time)
        → again.external_event_id ≡ "E-1"
        → add_shipment_event 3 again later (end_of delivered) ≡ err resource_conflict)
unfolding add_shipment_event get_shipment find moved status_after_event update commit_or_conflict
    constraints_hold unique any every
add_shipment_event_lem_example =
    add_shipment_event_lem 3 delivery 50 shipped_db (end_of delivered) (shipment_of delivered) refl

abbrev disposition : FailureDisposition
disposition = record {
  retry_scheduled = false;
  retry_delay_seconds = none;
  failure_code = (classify_import_failure permanent_import).1;
}

failed_db-IsValid : IsValid failed_db
unfolding record_import_failure find_job find find_current_attempt set_job set_attempt add_attempt
    record_import_event flush constraints_hold unique any every update classify_import_failure
    first_chars commit_or_conflict
failed_db-IsValid =
    fail-IsValid default_settings ext client isoformat describe "worker" none 1 permanent_import 200
      disposition queued_db failed_db refl (queued_db-IsConsistent, queued_db-IsSound)

abbrev inbox : Broker (List Uuid)
inbox = record { apply_async = λ id countdown queue. (accepted "task", id ∷ queue) }

abbrev system : System Objects (List Uuid)
system = record { database = failed_db; objects = objects; queue = [] }

replay_failed-Replays_example :
    Replays default_settings ext client isoformat inbox 1 "key-2" 500 600 system
      (replay_failed default_settings ext client isoformat inbox 1 "key-2" 500 600 system)
replay_failed-Replays_example =
    replay_failed-Replays default_settings ext client isoformat inbox 1 "key-2" 500 600 system
      default_range failed_db-IsValid
