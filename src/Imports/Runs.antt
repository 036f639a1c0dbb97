-- ===== src/Imports/Runs.antt =====
-- `execute_import_job` as a whole: what of its two transactions a failure leaves behind, and that a
-- job that a worker holds is not executed again.
use supply_chain_integration.Base.{◌≡◌, subst, true, false, Option, some, String, arith}
use supply_chain_integration.Domain.Errors.{Exn, Result, ok, err}
use supply_chain_integration.Settings.{Settings}
use supply_chain_integration.Objects.{S3Client}
use supply_chain_integration.Store.Rows.{Uuid, Time}
use supply_chain_integration.Store.Rows.Imports.{ImportJob}
use supply_chain_integration.Store.Db.{Db}
use supply_chain_integration.Store.Constraints.{IsConsistent}
use supply_chain_integration.Imports.Jobs.{find_job}
use supply_chain_integration.Imports.Payload.{Externals}
use supply_chain_integration.Imports.Execute.{
  can_claim, claimed_job, Claim, claimed, claim_job, process_job, execute_import_job,
}
use supply_chain_integration.Imports.Soundness.{IsSound}
use supply_chain_integration.Imports.Soundness.Claim.{claim_job-IsSound}

module _ {ℓ} {O : Type ℓ} (settings : Settings) (ext : Externals) (client : S3Client O)
    (worker_id : String) (celery_task_id : Option String) where
  -- A job that is not queued, or whose retry is not due, is returned and nothing is written.
  pub execute_import_job-skips :
      (id : Uuid) (now done : Time) (objects : O) (db : Db) (job : ImportJob)
      → find_job id db ≡ some job
      → can_claim now job ≡ false
      → execute_import_job settings ext client worker_id celery_task_id id now done objects db
        ≡ (ok job, db)
  unfolding execute_import_job claim_job
  execute_import_job-skips id now done objects db job found busy = ground arith

  pub execute_import_job-fails :
      (id : Uuid) (now done : Time) (objects : O) (db db' : Db) (job : ImportJob) (error : Exn)
      → claim_job settings now worker_id celery_task_id id db ≡ ok (claimed job, db')
      → process_job ext client done id objects db' ≡ err error
      → execute_import_job settings ext client worker_id celery_task_id id now done objects db
        ≡ (err error, db')
  unfolding execute_import_job
  execute_import_job-fails id now done objects db db' job error took failed = ground arith

  same_database :
      (a b : Claim) (db db' : Db) (r : Result (Claim × Db))
      → r ≡ ok (a, db)
      → r ≡ ok (b, db')
      → db ≡ db'
  same_database a b db db' r e e' = cc

  -- In a consistent database whose jobs satisfy the invariant, when the second transaction of the
  -- execution of a job that can be claimed raises on the database `db'` that the claim left, the
  -- error comes out and exactly the claim stays: the job is processing with one more attempt, the
  -- database is consistent and satisfies the invariant, and another execution of the job, at any
  -- instant, returns the job and writes nothing.
  pub execute_import_job-keeps_claim :
      (id : Uuid) (now done : Time) (objects : O) (db db' : Db) (job : ImportJob) (error : Exn)
      → IsConsistent db
      → IsSound db
      → find_job id db ≡ some job
      → can_claim now job ≡ true
      → claim_job settings now worker_id celery_task_id id db
        ≡ ok (claimed (claimed_job settings now worker_id job), db')
      → process_job ext client done id objects db' ≡ err error
      → (execute_import_job settings ext client worker_id celery_task_id id now done objects db
          ≡ (err error, db'))
        × (find_job id db' ≡ some (claimed_job settings now worker_id job))
        × IsConsistent db'
        × IsSound db'
        × ((later end : Time)
            → execute_import_job settings ext client worker_id celery_task_id id later end objects
                db'
              ≡ (ok (claimed_job settings now worker_id job), db'))
  execute_import_job-keeps_claim id now done objects db db' job error c s found free took failed =
      let (db1, took1, there1, c1, s1) =
        claim_job-IsSound settings now worker_id celery_task_id id job db c s found free in
      let e : db1 ≡ db' = same_database _ _ db1 db' _ took1 took in
      let there =
        subst (λ d. find_job id d ≡ some (claimed_job settings now worker_id job)) e there1 in
      (
        execute_import_job-fails id now done objects db db' (claimed_job settings now worker_id job)
            error took failed,
        there,
        subst IsConsistent e c1,
        subst IsSound e s1,
        λ later end.
            execute_import_job-skips id later end objects db'
              (claimed_job settings now worker_id job) there (ground arith),
      )
