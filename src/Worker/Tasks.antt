-- ===== src/Worker/Tasks.antt =====
-- worker/tasks.py: the three tasks. Each `with SessionLocal() as session` is one call of a service,
-- which commits on its own.
use supply_chain_integration.Base.{
  ℕ, ◌+◌, String, Option, none, some, Bool, true, false, List, [], ◌∷◌, map, length, or_else,
}
use supply_chain_integration.Domain.Enums.{ImportStatus}
use supply_chain_integration.Domain.Errors.{
  Exn, Result, ok, err, resource_not_found, operational_error,
}
use supply_chain_integration.Settings.{Settings}
use supply_chain_integration.Objects.{S3Client}
use supply_chain_integration.Store.Rows.{Uuid, Time}
use supply_chain_integration.Store.Rows.Imports.{ImportJob}
use supply_chain_integration.Store.Db.{Db}
use supply_chain_integration.Store.Session.{transact}
use supply_chain_integration.Imports.Payload.{Externals}
use supply_chain_integration.Imports.Queue.{jobs_due_for_dispatch, mark_job_dispatched}
use supply_chain_integration.Imports.Execute.{execute_import_job}
use supply_chain_integration.Imports.Failure.Record.{FailureDisposition, record_import_failure}
use supply_chain_integration.Imports.Recovery.{recover_stale_imports}
use supply_chain_integration.Worker.Broker.{Broker, publish_import_job}

-- How `imports.process` ends: by one of its dictionaries, by `self.retry` with a countdown in
-- seconds, or by an exception of its own.
pub data TaskResult : Type 0 where
  returned : Uuid → ImportStatus → TaskResult
  not_found : Uuid → TaskResult
  failed : Uuid → String → TaskResult
  retry : ℕ → TaskResult
  raised : Exn → TaskResult

-- What one run of the task meets: the instants of its transactions, the object store, and whether
-- the database can be reached when it starts and when it records a failure.
pub record Run {ℓ} (O : Type ℓ) : Type ℓ where
  pub now : Time
  pub done : Time
  pub failed_at : Time
  pub objects : O
  pub reachable : Bool
  pub reachable_again : Bool

-- A session on a database that cannot be reached raises `OperationalError`.
abbrev connected {ℓ} : {A : Type ℓ} → Bool → (Db → Result A × Db) → Db → Result A × Db
connected true session db = session db
connected false session db = (err operational_error, db)

module _ {ℓ} {O : Type ℓ} (settings : Settings) (ext : Externals) (client : S3Client O)
    (describe : Exn → String) (worker_id : String) (celery_task_id : Option String) where
  abbrev disposition_result : Uuid → FailureDisposition → TaskResult
  disposition_result id disposition = elim disposition.retry_scheduled [
    | true ↦ retry (or_else disposition.retry_delay_seconds 0)
    | false ↦ failed id disposition.failure_code
  ]

  abbrev recorded : Uuid → Result FailureDisposition × Db → TaskResult × Db
  recorded id (ok disposition, db) = (disposition_result id disposition, db)
  recorded id (err operational_error, db) = (retry settings.import_retry_base_seconds, db)
  recorded id (err e, db) = (raised e, db)

  -- `except Exception as error`
  unfoldable pub handle_failure : Uuid → Exn → Run O → Db → TaskResult × Db
  handle_failure id error run db = recorded id (
      connected run.reachable_again
        (transact
          (record_import_failure settings describe worker_id celery_task_id id error run.failed_at))
        db)

  abbrev after_execution : Uuid → Run O → Result ImportJob × Db → TaskResult × Db
  after_execution id run (ok job, db) = (returned job.id job.status, db)
  after_execution id run (err resource_not_found, db) = (not_found id, db)
  after_execution id run (err error, db) = handle_failure id error run db

  unfoldable pub process_import_job_task : Uuid → Run O → Db → TaskResult × Db
  unfolding handle_failure
  process_import_job_task id run db = after_execution id run (
      connected run.reachable
        (execute_import_job settings ext client worker_id celery_task_id id run.now run.done
          run.objects)
        db)

  -- Celery runs the task again for every `self.retry`, without a bound of its own
  -- (`max_retries=None`). The list holds what the runs meet; `none` means that it ran out.
  unfoldable pub deliver : Uuid → List (Run O) → Db → Option TaskResult × Db
  unfolding process_import_job_task
  deliver id [] db = (none, db)
  deliver id (run ∷ runs) db =
      let (result, db') = process_import_job_task id run db in
      elim result [ retry countdown ↦ deliver id runs db' | other ↦ (some other, db') ]

-- What a periodic task answers: the number of jobs that it looked at and of those that it
-- published.
pub record Sweep : Type 0 where
  pub jobs : ℕ
  pub published : ℕ

abbrev swept {ℓ} : {Q : Type ℓ} → ℕ → Result ℕ × Db × Q → Result Sweep × Db × Q
swept jobs (ok published, db, queue) =
    (ok (record { jobs = jobs; published = published }), db, queue)
swept jobs (err e, db, queue) = (err e, db, queue)

-- `at` is the instant at which each job is marked.
module _ {ℓ} {Q : Type ℓ} (broker : Broker Q) (at : Uuid → Time) where
  abbrev marked : Db → Q → Result (ImportJob × Db) → Result ℕ × Db × Q
  marked db queue (ok (job, db')) = (ok 1, db', queue)
  marked db queue (err e) = (err e, db, queue)

  -- The body of the loops: a job that was published is marked in a transaction of its own.
  unfoldable pub publish_job : Uuid → Q → Db → Result ℕ × Db × Q
  publish_job id queue db =
      let (task_id, queue') = publish_import_job broker id queue in
      elim task_id [
        | none ↦ (ok 0, db, queue')
        | some text ↦ marked db queue' (mark_job_dispatched id (at id) db)
      ]

  abbrev plus_published : ℕ → Result ℕ × Db × Q → Result ℕ × Db × Q
  plus_published n (ok m, db, queue) = (ok (n + m), db, queue)
  plus_published n (err e, db, queue) = (err e, db, queue)

  unfoldable pub publish_jobs : List Uuid → Q → Db → Result ℕ × Db × Q
  unfolding publish_job
  publish_jobs [] queue db = (ok 0, db, queue)
  publish_jobs (id ∷ ids) queue db =
      let (answer, db', queue') = publish_job id queue db in
      elim answer [
        | err e ↦ (err e, db', queue')
        | ok n ↦ plus_published n (publish_jobs ids queue' db')
      ]

  abbrev job_ids : List ImportJob → List Uuid
  job_ids jobs = map (λ job. job.id) jobs

  unfoldable pub dispatch_queued_imports_task : Settings → Time → Q → Db → Result Sweep × Db × Q
  unfolding publish_jobs jobs_due_for_dispatch
  dispatch_queued_imports_task settings now queue db =
      let ids = job_ids (jobs_due_for_dispatch settings now 100 db) in
      swept (length ids) (publish_jobs ids queue db)

  unfoldable pub recover_stale_imports_task : Time → Q → Db → Result Sweep × Db × Q
  unfolding publish_jobs recover_stale_imports
  recover_stale_imports_task now queue db = elim (recover_stale_imports now db) [
    | err e ↦ (err e, db, queue)
    | ok (ids, db') ↦ swept (length ids) (publish_jobs ids queue db')
  ]
