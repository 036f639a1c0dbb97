-- ===== src/Imports/Steps.antt =====
-- The import services as steps between databases: any service, called by anyone at any instant, with
-- whatever the object store then holds.
pub mod Preservation
pub mod Execution
use supply_chain_integration.Base.{String, Option, Bool, List, ◌≡◌}
use supply_chain_integration.Domain.Errors.{Exn, Result, ok, err}
use supply_chain_integration.Settings.{Settings}
use supply_chain_integration.Objects.{S3Client}
use supply_chain_integration.Store.Rows.{Uuid, Time}
use supply_chain_integration.Store.Rows.Catalog.{Supplier}
use supply_chain_integration.Store.Rows.Imports.{ImportJob}
use supply_chain_integration.Store.Db.{Db}
use supply_chain_integration.Services.Catalog.{SupplierCreate, create_supplier}
use supply_chain_integration.Imports.Queue.{
  Submission, submit_inventory_import, mark_job_dispatched,
}
use supply_chain_integration.Imports.Payload.{Externals}
use supply_chain_integration.Imports.Execute.{execute_import_job}
use supply_chain_integration.Imports.Failure.Record.{FailureDisposition, record_import_failure}
use supply_chain_integration.Imports.Replay.{replay_failed_import}
use supply_chain_integration.Imports.Recovery.{recover_stale_imports}

module _ {ℓ} {O : Type ℓ} (settings : Settings) (ext : Externals) (client : S3Client O)
    (isoformat : Time → String) (describe : Exn → String) where
  -- A service that raises before its first commit leaves the database as it is and is no step.
  pub data Step : Db → Db → Type ℓ where
    register :
        (request : SupplierCreate) (supplier : Supplier) (db db' : Db)
        → create_supplier request db ≡ ok (supplier, db')
        → Step db db'
    submit :
        (request : Submission) (now : Time) (objects objects' : O) (answer : ImportJob × Bool)
        (db db' : Db)
        → submit_inventory_import settings client isoformat request now db objects
          ≡ (ok (answer, db'), objects')
        → Step db db'
    dispatch :
        (id : Uuid) (now : Time) (job : ImportJob) (db db' : Db)
        → mark_job_dispatched id now db ≡ ok (job, db')
        → Step db db'
    execute :
        (worker_id : String) (celery_task_id : Option String) (id : Uuid) (now done : Time)
        (objects : O) (result : Result ImportJob) (db db' : Db)
        → execute_import_job settings ext client worker_id celery_task_id id now done objects db
          ≡ (result, db')
        → Step db db'
    fail :
        (worker_id : String) (celery_task_id : Option String) (id : Uuid) (error : Exn) (now : Time)
        (d : FailureDisposition) (db db' : Db)
        → record_import_failure settings describe worker_id celery_task_id id error now db
          ≡ ok (d, db')
        → Step db db'
    replay :
        (id : Uuid) (idempotency_key : String) (now : Time) (objects objects' : O)
        (answer : ImportJob × Bool) (db db' : Db)
        → replay_failed_import settings ext client isoformat id idempotency_key now db objects
          ≡ (ok (answer, db'), objects')
        → Step db db'
    recover :
        (now : Time) (ids : List Uuid) (db db' : Db)
        → recover_stale_imports now db ≡ ok (ids, db')
        → Step db db'

  -- Any number of steps, in any order.
  pub data Reach (start : Db) : Db → Type ℓ where
    here : Reach start start
    next : (db db' : Db) → Reach start db → Step db db' → Reach start db'
