-- ===== src/Imports/Recovery.antt =====
-- `recover_stale_imports` of integration_services.py: jobs whose worker let the lease expire.
use supply_chain_integration.Base.{
  Option, none, some, Bool, true, false, ◌&&◌, List, [], ◌∷◌, ltb, select, if◌then◌else◌,
}
use supply_chain_integration.Domain.Enums.{ImportStatus, ImportAttemptStatus, is_processing}
use supply_chain_integration.Store.Rows.{Uuid, Time}
use supply_chain_integration.Store.Rows.Imports.{ImportJob, ImportAttempt}
use supply_chain_integration.Store.Session.{Tx, pure, gets, modify, flush, ◌>>=◌, ◌>>◌}
use supply_chain_integration.Imports.Jobs.{set_job, get_current_attempt, set_attempt}

abbrev expired : Option Time → Time → Bool
expired none now = false
expired (some t) now = ltb t now

abbrev pub is_stale : Time → ImportJob → Bool
is_stale now job = is_processing job.status && expired job.lease_expires_at now

abbrev pub abandoned_attempt : Time → ImportAttempt → ImportAttempt
abandoned_attempt now attempt = record attempt {
  status = ImportAttemptStatus.abandoned;
  completed_at = some now;
  error_code = some "worker_lease_expired";
  error_message = some "The worker lease expired before completion.";
  retryable = some true;
}

abbrev pub lease_lost : ImportJob → ImportJob
lease_lost job = record job {
  failure_code = some "worker_lease_expired";
  failure_message = some "The worker lease expired before completion.";
  last_error_retryable = some true;
  lease_expires_at = none;
  worker_id = none;
  dispatched_at = none;
}

abbrev pub requeued_job : Time → ImportJob → ImportJob
requeued_job now job = record (lease_lost job) {
  status = ImportStatus.queued;
  next_retry_at = some now;
}

abbrev pub exhausted_job : Time → ImportJob → ImportJob
exhausted_job now job = record (lease_lost job) {
  status = ImportStatus.failed;
  completed_at = some now;
}

-- The body of the loop. A job without a current attempt stops the whole recovery by an exception.
-- It returns whether the job goes back to the queue.
unfoldable pub recover_job : Time → ImportJob → Tx Bool
recover_job now job = do
  get_current_attempt job
  modify (set_attempt job.id job.attempt_count (abandoned_attempt now))
  let again = ltb job.attempt_count job.max_attempts
  modify (set_job job.id (if again then requeued_job now else exhausted_job now))
  pure again

unfoldable pub recover_jobs : Time → List ImportJob → Tx (List Uuid)
unfolding recover_job
recover_jobs now [] = pure []
recover_jobs now (job ∷ jobs) = do
  again ← recover_job now job
  ids ← recover_jobs now jobs
  pure (if again then job.id ∷ ids else ids)

unfoldable pub recover_stale_imports : Time → Tx (List Uuid)
unfolding recover_jobs select
recover_stale_imports now = do
  jobs ← gets (λ db. select (is_stale now) db.jobs)
  ids ← recover_jobs now jobs
  flush
  pure ids
