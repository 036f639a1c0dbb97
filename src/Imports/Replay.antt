-- ===== src/Imports/Replay.antt =====
-- `replay_failed_import` of integration_services.py: the payload of a failed import is submitted again.
pub mod Laws
use supply_chain_integration.Base.{
  String, Option, none, some, Bool, not, ◌&&◌, is_none, find, ◌==◌, if◌then◌else◌,
}
use supply_chain_integration.Domain.Enums.{is_failed}
use supply_chain_integration.Domain.Errors.{
  Exn, Result, ok, err, permanent_import, transient_import, resource_conflict, resource_unavailable,
  resource_not_found, other_error,
}
use supply_chain_integration.Settings.{Settings}
use supply_chain_integration.Objects.{S3Client}
use supply_chain_integration.Store.Rows.{Uuid, Time, Bytes}
use supply_chain_integration.Store.Rows.Catalog.{Supplier}
use supply_chain_integration.Store.Rows.Imports.{ImportJob}
use supply_chain_integration.Store.Db.{Db}
use supply_chain_integration.Imports.Jobs.{find_job}
use supply_chain_integration.Imports.Queue.{Submission, submit_inventory_import}
use supply_chain_integration.Imports.Payload.{Externals, load_import_payload}

-- The arguments of the new submission; a replay carries no correlation id.
abbrev pub replay_request : ImportJob → Supplier → Bytes → String → Submission
replay_request original supplier content idempotency_key = record {
  supplier_code = supplier.code;
  source_type = original.source_type;
  adapter_version = original.adapter_version;
  content = content;
  content_sha256 = original.content_sha256;
  content_type = original.content_type;
  idempotency_key = idempotency_key;
  original_filename = original.original_filename;
  replay_of_job_id = some original.id;
  correlation_id = none;
}

abbrev replay_error : Exn → Exn
replay_error permanent_import = resource_conflict
replay_error transient_import = resource_unavailable
replay_error e = e

module _ {ℓ} {O : Type ℓ} (settings : Settings) (ext : Externals) (client : S3Client O)
    (isoformat : Time → String) where
  -- After the payload was loaded.
  unfoldable pub resubmit :
      ImportJob
      → String
      → Result Bytes
      → Option Supplier
      → Time
      → Db
      → O
      → Result ((ImportJob × Bool) × Db) × O
  resubmit original idempotency_key (err e) supplier now db objects =
      (err (replay_error e), objects)
  resubmit original idempotency_key (ok content) none now db objects = (err other_error, objects)
  resubmit original idempotency_key (ok content) (some supplier) now db objects =
      submit_inventory_import settings client isoformat
        (replay_request original supplier content idempotency_key) now db objects

  -- `original.supplier` is the row with the supplier's id.
  unfoldable pub replay_job :
      ImportJob → String → Time → Db → O → Result ((ImportJob × Bool) × Db) × O
  unfolding resubmit
  replay_job original idempotency_key now db objects =
      if not (is_failed original.status)
      then (err resource_conflict, objects)
      else if is_none original.payload && is_none original.payload_object_key
      then (err resource_conflict, objects)
      else resubmit original idempotency_key (load_import_payload ext client original objects)
          (find (λ s. s.id == original.supplier_id) db.suppliers) now db objects

  abbrev replay_found :
      Option ImportJob → String → Time → Db → O → Result ((ImportJob × Bool) × Db) × O
  replay_found none idempotency_key now db objects = (err resource_not_found, objects)
  replay_found (some original) idempotency_key now db objects =
      replay_job original idempotency_key now db objects

  unfoldable pub replay_failed_import :
      Uuid → String → Time → Db → O → Result ((ImportJob × Bool) × Db) × O
  unfolding replay_job
  replay_failed_import id idempotency_key now db objects =
      replay_found (find_job id db) idempotency_key now db objects
