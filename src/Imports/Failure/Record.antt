-- ===== src/Imports/Failure/Record.antt =====
-- `record_import_failure` of integration_services.py.
use supply_chain_integration.Base.{
  ℕ, suc, ◌+◌, String, Option, none, some, Bool, true, false, ◌&&◌, ltb,
}
use supply_chain_integration.Domain.Enums.{ImportStatus, ImportAttemptStatus}
use supply_chain_integration.Domain.Errors.{Exn, resource_not_found}
use supply_chain_integration.Settings.{Settings}
use supply_chain_integration.Store.Rows.{Uuid, Time, seconds}
use supply_chain_integration.Store.Rows.Imports.{ImportJob, ImportAttempt}
use supply_chain_integration.Store.Session.{
  Tx, branch, pure, gets, modify, or_raise, fresh_id, flush, ◌>>=◌, ◌>>◌,
}
use supply_chain_integration.Imports.Jobs.{
  find_job, set_job, find_current_attempt, set_attempt, add_attempt, record_import_event,
}
use supply_chain_integration.Imports.Execute.{new_attempt}
use supply_chain_integration.Imports.Failure.Policy.{
  classify_import_failure, calculate_retry_delay, first_chars,
}

pub record FailureDisposition : Type 0 where
  pub retry_scheduled : Bool
  pub retry_delay_seconds : Option ℕ
  pub failure_code : String

-- The attributes that both outcomes assign; `str(error)` is the parameter `describe`.
abbrev pub failed_job : (Exn → String) → Exn → ImportJob → ImportJob
failed_job describe error job = record job {
  failure_code = some (classify_import_failure error).1;
  failure_message = some (first_chars 1000 (describe error));
  last_error_retryable = some (classify_import_failure error).0;
  lease_expires_at = none;
  worker_id = none;
  dispatched_at = none;
}

abbrev pub retried_job : Time → ℕ → ImportJob → ImportJob
retried_job now delay job = record job {
  status = ImportStatus.queued;
  next_retry_at = some (now + seconds delay);
}

abbrev pub stopped_job : Time → ImportJob → ImportJob
stopped_job now job = record job {
  status = ImportStatus.failed;
  completed_at = some now;
  next_retry_at = none;
}

abbrev pub failed_attempt :
    (Exn → String) → Exn → Time → ImportAttemptStatus → ImportAttempt → ImportAttempt
failed_attempt describe error now status attempt = record attempt {
  error_code = some (classify_import_failure error).1;
  error_message = some (first_chars 1000 (describe error));
  retryable = some (classify_import_failure error).0;
  completed_at = some now;
  status = status;
}

abbrev pub counted : ImportJob → ImportJob
counted job = record job { attempt_count = suc job.attempt_count }

abbrev pub can_retry : ImportJob → Exn → Bool
can_retry job error = (classify_import_failure error).0 && ltb job.attempt_count job.max_attempts

module _ (settings : Settings) (describe : Exn → String) (worker_id : String)
    (celery_task_id : Option String) where
  -- A failure before the claim was committed is an attempt of its own.
  unfoldable pub ensure_attempt : ImportJob → Time → Option ImportAttempt → Tx ImportJob
  ensure_attempt job now (some attempt) = pure job
  ensure_attempt job now none = do
    modify (set_job job.id counted)
    id ← fresh_id
    modify
        (add_attempt (new_attempt id job.id (suc job.attempt_count) celery_task_id worker_id now))
    pure (counted job)

  unfoldable pub schedule_retry : ImportJob → Exn → Time → Tx FailureDisposition
  schedule_retry job error now = do
    let delay = calculate_retry_delay settings job.attempt_count
    modify (set_job job.id (λ j. retried_job now delay (failed_job describe error j)))
    modify (
        set_attempt job.id job.attempt_count
          (failed_attempt describe error now ImportAttemptStatus.retry_scheduled))
    record_import_event job "Celery" "job.retry_scheduled" "warning" now
    flush
    pure (record {
      retry_scheduled = true;
      retry_delay_seconds = some delay;
      failure_code = (classify_import_failure error).1;
    })

  unfoldable pub stop_job : ImportJob → Exn → Time → Tx FailureDisposition
  stop_job job error now = do
    modify (set_job job.id (λ j. stopped_job now (failed_job describe error j)))
    modify (
        set_attempt job.id job.attempt_count
          (failed_attempt describe error now ImportAttemptStatus.failed))
    record_import_event job "Celery" "job.failed" "failed" now
    flush
    pure (record {
      retry_scheduled = false;
      retry_delay_seconds = none;
      failure_code = (classify_import_failure error).1;
    })

  -- `session.rollback()` has dropped what the failed transaction wrote. The status of the job is
  -- not looked at.
  unfoldable pub record_import_failure : Uuid → Exn → Time → Tx FailureDisposition
  unfolding ensure_attempt schedule_retry stop_job
  record_import_failure id error now = do
    found ← (λ db. or_raise (find_job id db) resource_not_found db)
    attempt ← gets (find_current_attempt found)
    job ← ensure_attempt found now attempt
    branch (can_retry job error) (schedule_retry job error now) (stop_job job error now)
