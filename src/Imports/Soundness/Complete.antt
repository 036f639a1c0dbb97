-- ===== src/Imports/Soundness/Complete.antt =====
-- The second transaction of the execution of a job.
use supply_chain_integration.Base.{ℕ, ◌≡◌, refl, [], String, arith}
use supply_chain_integration.Domain.Errors.{ok}
use supply_chain_integration.Objects.{S3Client}
use supply_chain_integration.Partners.Canonical.{InventoryAdapterResult}
use supply_chain_integration.Store.Rows.{Uuid, Time}
use supply_chain_integration.Store.Rows.Imports.{ImportJob}
use supply_chain_integration.Store.Db.{Db}
use supply_chain_integration.Store.Session.{modify, pure, flush}
use supply_chain_integration.Store.Constraints.{IsConsistent, constraints_hold-IsConsistent}
use supply_chain_integration.Imports.Jobs.{
  get_import_job, get_current_attempt, set_job, set_attempt, record_import_event,
}
use supply_chain_integration.Imports.Payload.{Externals}
use supply_chain_integration.Imports.Totals.{
  with_totals, add_import_errors, apply_records, apply_inventory_result, count_rejected, errors_of,
}
use supply_chain_integration.Imports.Execute.{completed_job, succeeded_attempt, finish_job}
use supply_chain_integration.Imports.Soundness.{JobIsSound}
use supply_chain_integration.Imports.Soundness.Frames.{
  pure-Frames, Frames, add_import_errors-Frames, apply_records-Frames,
}
use supply_chain_integration.Imports.Soundness.Keeps.{
  Keeps, Keeps-bind, Frames-Keeps, set_job-Keeps, set_attempt-Keeps,
}

record_import_event-Frames :
    (job : ImportJob) (component stage status : String) (now : Time)
    → Frames (record_import_event job component stage status now)
unfolding record_import_event
record_import_event-Frames job component stage status now db db' a h = ground arith

pub get_import_job-Frames : (id : Uuid) → Frames (get_import_job id)
unfolding get_import_job
get_import_job-Frames id db db' a h = ground arith

get_current_attempt-Frames : (job : ImportJob) → Frames (get_current_attempt job)
unfolding get_current_attempt
get_current_attempt-Frames job db db' a h = ground arith

flush-Frames : Frames flush
unfolding flush
flush-Frames db db' a h = ground arith

with_totals-JobIsSound : (a r : ℕ) (j : ImportJob) → JobIsSound j → JobIsSound (with_totals a r j)
with_totals-JobIsSound a r j s = ground arith

ended-JobIsSound :
    (r : ℕ) (done : Time) (j : ImportJob) → JobIsSound j → JobIsSound (completed_job r done j)
ended-JobIsSound r done j s = ground arith

pub apply_inventory_result-Keeps :
    (job : ImportJob) (supplier_id : Uuid) (result : InventoryAdapterResult) (now : Time)
    → Keeps (apply_inventory_result job supplier_id result now)
unfolding apply_inventory_result
apply_inventory_result-Keeps job supplier_id result now =
    Keeps-bind (add_import_errors job.id now result.errors) _
      (Frames-Keeps (add_import_errors job.id now result.errors)
        (add_import_errors-Frames job.id now result.errors))
      (λ done.
        Keeps-bind (apply_records job supplier_id now result.records [] 0) _
          (Frames-Keeps (apply_records job supplier_id now result.records [] 0)
            (apply_records-Frames job supplier_id now result.records [] 0))
          (λ accepted db db' a h s.
            Keeps-bind
              (modify
                (set_job job.id (with_totals accepted (count_rejected (errors_of job.id db)))))
              _
              (set_job-Keeps job.id (with_totals accepted (count_rejected (errors_of job.id db)))
                (λ x. refl) (λ x. refl)
                (with_totals-JobIsSound accepted (count_rejected (errors_of job.id db))))
              (λ end.
                Frames-Keeps (pure (accepted, count_rejected (errors_of job.id db)))
                  (pure-Frames (accepted, count_rejected (errors_of job.id db))))
              db db' a h s))

module _ {ℓ} {O : Type ℓ} (ext : Externals) (client : S3Client O) (done : Time) where
  pub event-Keeps :
      (job : ImportJob) (component stage : String)
      → Keeps (record_import_event job component stage "succeeded" done)
  event-Keeps job component stage =
      Frames-Keeps (record_import_event job component stage "succeeded" done)
        (record_import_event-Frames job component stage "succeeded" done)

  pub finish_job-Keeps :
      (job : ImportJob) (rejected : ℕ) → Keeps (finish_job ext client done job rejected)
  unfolding finish_job
  finish_job-Keeps job rejected =
      Keeps-bind (modify (set_job job.id (completed_job rejected done))) _
        (set_job-Keeps job.id (completed_job rejected done) (λ x. refl) (λ x. refl)
          (ended-JobIsSound rejected done))
        (λ r1.
          Keeps-bind (get_current_attempt job) _
            (Frames-Keeps (get_current_attempt job) (get_current_attempt-Frames job))
            (λ attempt.
              Keeps-bind (modify (set_attempt job.id job.attempt_count (succeeded_attempt done))) _
                (set_attempt-Keeps job.id job.attempt_count (succeeded_attempt done) (λ x. refl)
                  (λ x. refl))
                (λ r2.
                  Keeps-bind
                    (record_import_event job "PostgreSQL" "inventory.committed" "succeeded" done) _
                    (event-Keeps job "PostgreSQL" "inventory.committed")
                    (λ r3.
                      Keeps-bind (record_import_event job "Celery" "job.completed" "succeeded" done)
                        _ (event-Keeps job "Celery" "job.completed")
                        (λ r4. Keeps-bind flush _ (Frames-Keeps flush flush-Frames) (λ r5.
                          Frames-Keeps (get_import_job job.id) (get_import_job-Frames job.id)))))))

  -- The last action before the result is a commit, which refuses an inconsistent database.
  pub finish_job-IsConsistent :
      (job job' : ImportJob) (rejected : ℕ) (db db' : Db)
      → finish_job ext client done job rejected db ≡ ok (job', db')
      → IsConsistent db'
  unfolding finish_job flush get_import_job get_current_attempt record_import_event
  finish_job-IsConsistent job job' rejected db db' h =
      constraints_hold-IsConsistent db' (ground arith)
