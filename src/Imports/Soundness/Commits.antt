-- ===== src/Imports/Soundness/Commits.antt =====
-- The two outcomes of `record_import_failure`, from the state that `ensure_attempt` leaves.
use supply_chain_integration.Base.{
  ◌≡◌, refl, subst, ◌∙◌, inl, inr, true, false, Bool-cases, Option, some, none, String,
  if◌then◌else◌, arith,
}
use supply_chain_integration.Domain.Enums.{ImportAttemptStatus}
use supply_chain_integration.Domain.Errors.{Exn, Result, ok}
use supply_chain_integration.Settings.{Settings}
use supply_chain_integration.Store.Rows.{Uuid, Time}
use supply_chain_integration.Store.Rows.Imports.{ImportJob}
use supply_chain_integration.Store.Db.{Db}
use supply_chain_integration.Store.Session.{flush, branch}
use supply_chain_integration.Store.Constraints.{
  IsConsistent, constraints_hold, constraints_hold_of_IsConsistent,
}
use supply_chain_integration.Imports.Jobs.{
  find_job, find_current_attempt, set_job, set_attempt, record_import_event,
}
use supply_chain_integration.Imports.Failure.Policy.{calculate_retry_delay, classify_import_failure}
use supply_chain_integration.Imports.Failure.Record.{
  FailureDisposition, failed_attempt, can_retry, ensure_attempt, schedule_retry, stop_job,
  record_import_failure,
}
use supply_chain_integration.Imports.Soundness.{IsSound}
use supply_chain_integration.Imports.Soundness.Steps.{
  retried_job-JobIsSound, stopped_job-JobIsSound,
}
use supply_chain_integration.Imports.Soundness.Updates.{find_job-id, find_job-changed}
use supply_chain_integration.Imports.Soundness.Failure.{
  IsCharged, outcome_db, retry_change, stop_change, retry_db-IsConsistent, stop_db-IsConsistent,
  outcome_db-IsSound,
}
use supply_chain_integration.Imports.Soundness.Outcome.{charged, ensure_attempt-IsCharged}

charged-id : (job : ImportJob) (db : Db) → (charged job db).id ≡ job.id
charged-id job db = ground arith

-- What the caller is told.
abbrev pub disposition : Settings → ImportJob → Exn → FailureDisposition
disposition settings job error = record {
  retry_scheduled = can_retry job error;
  retry_delay_seconds =
      if can_retry job error then some (calculate_retry_delay settings job.attempt_count) else none;
  failure_code = (classify_import_failure error).1;
}

-- What becomes of the job.
abbrev pub outcome : Settings → (Exn → String) → Exn → Time → ImportJob → ImportJob
outcome settings describe error now job =
    if can_retry job error
    then retry_change describe error now (calculate_retry_delay settings job.attempt_count) job
    else stop_change describe error now job

module _ (settings : Settings) (describe : Exn → String) (worker_id : String)
    (celery_task_id : Option String) where
  abbrev retry_db : ImportJob → Exn → Time → Db → Db
  retry_db job error now db =
      outcome_db
        (retry_change describe error now (calculate_retry_delay settings job.attempt_count))
        (failed_attempt describe error now ImportAttemptStatus.retry_scheduled) job
        "job.retry_scheduled" "warning" now db

  abbrev stop_db : ImportJob → Exn → Time → Db → Db
  stop_db job error now db =
      outcome_db (stop_change describe error now)
        (failed_attempt describe error now ImportAttemptStatus.failed) job "job.failed" "failed" now
        db

  schedule_retry-commits :
      (job : ImportJob) (error : Exn) (now : Time) (db : Db)
      → can_retry job error ≡ true
      → constraints_hold (retry_db job error now db) ≡ true
      → schedule_retry settings describe worker_id celery_task_id job error now db
        ≡ ok (disposition settings job error, retry_db job error now db)
  unfolding schedule_retry set_job set_attempt record_import_event flush
  schedule_retry-commits job error now db left holds = ground arith

  stop_job-commits :
      (job : ImportJob) (error : Exn) (now : Time) (db : Db)
      → can_retry job error ≡ false
      → constraints_hold (stop_db job error now db) ≡ true
      → stop_job settings describe worker_id celery_task_id job error now db
        ≡ ok (disposition settings job error, stop_db job error now db)
  unfolding stop_job set_job set_attempt record_import_event flush
  stop_job-commits job error now db left holds = ground arith

  -- The outcome of a charged failure: the commit goes through and the invariant holds again.
  settle :
      (job : ImportJob) (error : Exn) (now : Time) (db : Db)
      → IsCharged job db
      → (db' : Db) × (branch
            (can_retry job error)
            (schedule_retry settings describe worker_id celery_task_id job error now)
            (stop_job settings describe worker_id celery_task_id job error now)
            db
          ≡ ok (disposition settings job error, db'))
        × (find_job job.id db' ≡ some (outcome settings describe error now job))
        × IsConsistent db'
        × IsSound db'
  settle job error now db c = elim (Bool-cases (can_retry job error)) [
    | inl left ↦
        let delay = calculate_retry_delay settings job.attempt_count in
        let c' =
          retry_db-IsConsistent describe error now delay job "job.retry_scheduled" "warning"
            ImportAttemptStatus.retry_scheduled db c.consistent in
        (
          retry_db job error now db,
          rw left (
              rw left at (
                schedule_retry-commits job error now db left
                  (constraints_hold_of_IsConsistent (retry_db job error now db) c'))),
          rw left (
              find_job-changed job.id (retry_change describe error now delay) db
                (retry_db job error now db) job (λ x. refl) c.found refl),
          c',
          outcome_db-IsSound describe error now (retry_change describe error now delay)
              ImportAttemptStatus.retry_scheduled job "job.retry_scheduled" "warning" db (λ x. refl)
              (λ x. refl) (retried_job-JobIsSound describe error now delay job left c.budget) c,
        )
    | inr over ↦
        let c' =
          stop_db-IsConsistent describe error now job "job.failed" "failed"
            ImportAttemptStatus.failed db c.consistent in
        (
          stop_db job error now db,
          rw over (
              rw over at (
                stop_job-commits job error now db over
                  (constraints_hold_of_IsConsistent (stop_db job error now db) c'))),
          rw over (
              find_job-changed job.id (stop_change describe error now) db (stop_db job error now db)
                job (λ x. refl) c.found refl),
          c',
          outcome_db-IsSound describe error now (stop_change describe error now)
              ImportAttemptStatus.failed job "job.failed" "failed" db (λ x. refl) (λ x. refl)
              (stopped_job-JobIsSound describe error now job c.budget) c,
        )
  ]

  composed :
      (id : Uuid) (job : ImportJob) (error : Exn) (now : Time) (db db' : Db)
      (charged_job : ImportJob) (result : Result (FailureDisposition × Db))
      → find_job id db ≡ some job
      → ensure_attempt settings describe worker_id celery_task_id job now
          (find_current_attempt job db)
          db
        ≡ ok (charged_job, db')
      → branch
          (can_retry charged_job error)
          (schedule_retry settings describe worker_id celery_task_id charged_job error now)
          (stop_job settings describe worker_id celery_task_id charged_job error now)
          db'
        ≡ result
      → record_import_failure settings describe worker_id celery_task_id id error now db ≡ result
  unfolding record_import_failure
  composed id job error now db db' charged_job result found returned settled = ground arith

  pub record_import_failure-IsSound :
      (id : Uuid) (job : ImportJob) (error : Exn) (now : Time) (db : Db)
      → IsConsistent db
      → IsSound db
      → find_job id db ≡ some job
      → (db' : Db) × (record_import_failure settings describe worker_id celery_task_id id error now
            db
          ≡ ok (disposition settings (charged job db) error, db'))
        × (find_job id db' ≡ some (outcome settings describe error now (charged job db)))
        × IsConsistent db'
        × IsSound db'
  record_import_failure-IsSound id job error now db c s found =
      let (db1, returned, charge) =
        ensure_attempt-IsCharged settings describe worker_id celery_task_id id job now db c s
          found in
      let (db2, settled, there, c2, s2) = settle (charged job db) error now db1 charge in
      let same : (charged job db).id ≡ id = charged-id job db ∙ find_job-id id db job found in
      (
        db2,
        composed id job error now db db1 (charged job db) _ found returned settled,
        subst (λ k. find_job k db2 ≡ some (outcome settings describe error now (charged job db)))
            same there,
        c2,
        s2,
      )
