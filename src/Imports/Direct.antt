-- ===== src/Imports/Direct.antt =====
-- `process_inventory_import` of integration_services.py: an import in one transaction, of a result
-- that was adapted before.
use supply_chain_integration.Base.{
  ℕ, String, Option, none, some, [], ◌∷◌, ◌++◌, ◌==◌, if◌then◌else◌,
}
use supply_chain_integration.Domain.Enums.{ImportSourceType, ImportStatus}
use supply_chain_integration.Partners.Canonical.{InventoryAdapterResult}
use supply_chain_integration.Store.Rows.{Uuid, Time}
use supply_chain_integration.Store.Rows.Imports.{ImportJob}
use supply_chain_integration.Store.Session.{
  Tx, modify, fresh_id, flush, commit_or_conflict, ◌>>=◌, ◌>>◌,
}
use supply_chain_integration.Imports.Jobs.{get_supplier_by_code, get_import_job, set_job}
use supply_chain_integration.Imports.Totals.{apply_inventory_result}

-- The arguments of `process_inventory_import` but the adapted result.
pub record DirectImport : Type 0 where
  pub supplier_code : String
  pub source_type : ImportSourceType
  pub adapter_version : String
  pub content_sha256 : String
  pub original_filename : Option String

-- The columns that are not given take the defaults of the table.
abbrev pub direct_job : Uuid → Uuid → DirectImport → Time → ImportJob
direct_job id supplier_id request now = record {
  id = id;
  supplier_id = supplier_id;
  source_type = request.source_type;
  adapter_version = request.adapter_version;
  original_filename = request.original_filename;
  content_sha256 = request.content_sha256;
  content_type = "application/octet-stream";
  payload = none;
  payload_object_key = none;
  payload_size_bytes = none;
  idempotency_key = none;
  correlation_id = none;
  status = ImportStatus.processing;
  total_records = 0;
  accepted_records = 0;
  rejected_records = 0;
  attempt_count = 0;
  max_attempts = 3;
  dispatched_at = none;
  started_at = some now;
  completed_at = none;
  next_retry_at = none;
  lease_expires_at = none;
  worker_id = none;
  failure_code = none;
  failure_message = none;
  last_error_retryable = none;
  replay_of_job_id = none;
  created_at = now;
}

abbrev pub directly_completed : ℕ → Time → ImportJob → ImportJob
directly_completed rejected_records done job = record job {
  status =
      if rejected_records == 0 then ImportStatus.completed else ImportStatus.completed_with_errors;
  completed_at = some done;
}

unfoldable pub process_inventory_import :
    DirectImport → InventoryAdapterResult → Time → Time → Tx ImportJob
process_inventory_import request result now done = do
  supplier ← get_supplier_by_code request.supplier_code
  id ← fresh_id
  let job = direct_job id supplier.id request now
  modify (λ db. record db { jobs = db.jobs ++ job ∷ [] })
  flush
  (accepted_records, rejected_records) ← apply_inventory_result job supplier.id result done
  modify (set_job job.id (directly_completed rejected_records done))
  commit_or_conflict
  get_import_job job.id
