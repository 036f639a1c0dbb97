-- ===== src/Imports/Execute.antt =====
-- `execute_import_job` of integration_services.py: two transactions. The first claims the job under
-- a row lock and commits; the second translates and applies the payload, and commits or raises.
use supply_chain_integration.Base.{
  ℕ, suc, ◌+◌, String, Option, none, some, Bool, false, not, ◌&&◌, ◌==◌, ltb, find, or_else,
  if◌then◌else◌,
}
use supply_chain_integration.Domain.Enums.{ImportStatus, ImportAttemptStatus, is_queued}
use supply_chain_integration.Domain.Errors.{Result, ok, err, resource_not_found, other_error}
use supply_chain_integration.Settings.{Settings}
use supply_chain_integration.Objects.{S3Client}
use supply_chain_integration.Partners.Canonical.{InventoryAdapterResult}
use supply_chain_integration.Store.Rows.{Uuid, Time, seconds}
use supply_chain_integration.Store.Rows.Imports.{ImportJob, ImportAttempt}
use supply_chain_integration.Store.Db.{Db}
use supply_chain_integration.Store.Session.{
  Tx, branch, pure, lift, modify, or_raise, fresh_id, flush, transact, ◌>>=◌, ◌>>◌,
}
use supply_chain_integration.Imports.Jobs.{
  find_job, get_import_job, set_job, get_current_attempt, set_attempt, add_attempt,
  record_import_event,
}
use supply_chain_integration.Imports.Payload.{Externals, adapt_retained_payload}
use supply_chain_integration.Imports.Totals.{apply_inventory_result}

-- `job.next_retry_at is not None and job.next_retry_at > now`
abbrev pub too_early : Option Time → Time → Bool
too_early none now = false
too_early (some t) now = ltb now t

abbrev pub can_claim : Time → ImportJob → Bool
can_claim now job = is_queued job.status && not (too_early job.next_retry_at now)

abbrev pub claimed_job : Settings → Time → String → ImportJob → ImportJob
claimed_job settings now worker_id job = record job {
  status = ImportStatus.processing;
  attempt_count = suc job.attempt_count;
  started_at = some (or_else job.started_at now);
  completed_at = none;
  next_retry_at = none;
  lease_expires_at = some (now + seconds settings.import_lease_seconds);
  worker_id = some worker_id;
  failure_code = none;
  failure_message = none;
  last_error_retryable = none;
}

abbrev pub new_attempt : Uuid → Uuid → ℕ → Option String → String → Time → ImportAttempt
new_attempt id job_id number celery_task_id worker_id now = record {
  id = id;
  import_job_id = job_id;
  attempt_number = number;
  status = ImportAttemptStatus.running;
  celery_task_id = celery_task_id;
  worker_id = worker_id;
  started_at = now;
  completed_at = none;
  error_code = none;
  error_message = none;
  retryable = none;
}

-- Whether the job was claimed, with the job as it is then.
pub data Claim : Type 0 where
  skipped : ImportJob → Claim
  claimed : ImportJob → Claim

module _ (settings : Settings) (now : Time) (worker_id : String)
    (celery_task_id : Option String) where
  pub write_claim : ImportJob → Tx Claim
  write_claim job = do
    modify (set_job job.id (claimed_job settings now worker_id))
    id ← fresh_id
    modify
        (add_attempt (new_attempt id job.id (suc job.attempt_count) celery_task_id worker_id now))
    record_import_event job "Celery" "worker.claimed" "running" now
    flush
    pure (claimed (claimed_job settings now worker_id job))

  -- A job that is not queued, or whose retry is not due, is returned as it is.
  unfoldable pub claim_job : Uuid → Tx Claim
  unfolding write_claim
  claim_job id = do
    job ← (λ db. or_raise (find_job id db) resource_not_found db)
    branch (can_claim now job) (write_claim job) (pure (skipped job))

abbrev pub completed_job : ℕ → Time → ImportJob → ImportJob
completed_job rejected_records done job = record job {
  status =
      if rejected_records == 0 then ImportStatus.completed else ImportStatus.completed_with_errors;
  completed_at = some done;
  lease_expires_at = none;
  worker_id = none;
}

abbrev pub succeeded_attempt : Time → ImportAttempt → ImportAttempt
succeeded_attempt done attempt = record attempt {
  status = ImportAttemptStatus.succeeded;
  completed_at = some done;
}

module _ {ℓ} {O : Type ℓ} (ext : Externals) (client : S3Client O) (done : Time) where
  -- What follows the application of the records, up to the commit.
  unfoldable pub finish_job : ImportJob → ℕ → Tx ImportJob
  finish_job job rejected_records = do
    modify (set_job job.id (completed_job rejected_records done))
    get_current_attempt job
    modify (set_attempt job.id job.attempt_count (succeeded_attempt done))
    record_import_event job "PostgreSQL" "inventory.committed" "succeeded" done
    record_import_event job "Celery" "job.completed" "succeeded" done
    flush
    get_import_job job.id

  -- The second transaction, after the payload was adapted.
  unfoldable pub complete_job : ImportJob → InventoryAdapterResult → Tx ImportJob
  unfolding finish_job
  complete_job job result = do
    record_import_event job "SeaweedFS" "payload.verified" "succeeded" done
    record_import_event job "Adapter" "payload.transformed" "succeeded" done
    supplier ← (λ db. or_raise (find (λ s. s.id == job.supplier_id) db.suppliers) other_error db)
    (accepted_records, rejected_records) ← apply_inventory_result job supplier.id result done
    finish_job job rejected_records

  -- The second transaction.
  unfoldable pub process_job : Uuid → O → Tx ImportJob
  unfolding complete_job
  process_job id objects = do
    job ← get_import_job id
    result ← lift (adapt_retained_payload ext client job objects)
    complete_job job result

module _ {ℓ} {O : Type ℓ} (settings : Settings) (ext : Externals) (client : S3Client O)
    (worker_id : String) (celery_task_id : Option String) where
  -- The claim begins at `now`, the rest ends at `done`. The database comes back as it is committed.
  unfoldable pub execute_import_job : Uuid → Time → Time → O → Db → Result ImportJob × Db
  unfolding claim_job process_job
  execute_import_job id now done objects db =
      elim (claim_job settings now worker_id celery_task_id id db) [
        | err e ↦ (err e, db)
        | ok (skipped job, db') ↦ (ok job, db)
        | ok (claimed job, db') ↦ transact (process_job ext client done id objects) db'
      ]
