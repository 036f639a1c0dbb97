-- ===== src/Imports/Soundness/Failure.antt =====
-- The record of a failure: what it writes, that the database accepts it, and that it keeps the
-- invariant, whatever the status of the job was.
use supply_chain_integration.Base.{
  ℕ, suc, ◌≡◌, refl, some, String, [], ◌∷◌, ◌++◌, update, unique-update, every-update, arith,
}
use supply_chain_integration.Domain.Enums.{ImportAttemptStatus}
use supply_chain_integration.Domain.Errors.{Exn}
use supply_chain_integration.Store.Rows.{Time}
use supply_chain_integration.Store.Rows.Imports.{ImportJob, ImportAttempt}
use supply_chain_integration.Store.Db.{Db}
use supply_chain_integration.Store.Constraints.{IsConsistent}
use supply_chain_integration.Imports.Jobs.{has_job_id, find_job, is_attempt, operation_event}
use supply_chain_integration.Imports.Failure.Record.{
  failed_job, retried_job, stopped_job, failed_attempt,
}
use supply_chain_integration.Imports.Soundness.{JobIsSound, IsNumbered, IsKeyed, IsSound}
use supply_chain_integration.Imports.Soundness.Keys.{IsKeyed-change, owners-update}
use supply_chain_integration.Imports.Soundness.Steps.{HasBudget}
use supply_chain_integration.Imports.Soundness.Updates.{
  OthersTracked, IsSound-change, IsNumbered-update, IsNumbered-same,
}
use supply_chain_integration.Imports.Soundness.Consistency.{with_imports, with_imports-IsConsistent}

-- The state between `ensure_attempt` and the writes of the outcome.
pub record IsCharged (job : ImportJob) (db : Db) : Type 0 where
  pub found : find_job job.id db ≡ some job
  pub budget : HasBudget job
  pub numbers : IsNumbered db.attempts job
  pub others : OthersTracked job.id db
  pub consistent : IsConsistent db
  pub keyed : IsKeyed db

-- The writes of an outcome: changes `f` of the job and `g` of its current attempt, and an event.
abbrev pub outcome_db :
    (ImportJob → ImportJob)
    → (ImportAttempt → ImportAttempt)
    → ImportJob
    → String
    → String
    → Time
    → Db
    → Db
outcome_db f g job stage status now db =
    with_imports db (suc db.next_id) (update (has_job_id job.id) f db.jobs)
      (update (is_attempt job.id job.attempt_count) g db.attempts) db.job_errors
      (db.events ++ operation_event db.next_id job "Celery" stage status now ∷ [])

module _ (describe : Exn → String) (error : Exn) (now : Time) where
  abbrev pub retry_change : ℕ → ImportJob → ImportJob
  retry_change delay j = retried_job now delay (failed_job describe error j)

  abbrev pub stop_change : ImportJob → ImportJob
  stop_change j = stopped_job now (failed_job describe error j)

  pub retry_db-IsConsistent :
      (delay : ℕ) (job : ImportJob) (stage status : String) (s : ImportAttemptStatus) (db : Db)
      → IsConsistent db
      → IsConsistent (
          outcome_db
            (retry_change delay)
            (failed_attempt describe error now s)
            job
            stage
            status
            now
            db)
  retry_db-IsConsistent delay job stage status s db c =
      with_imports-IsConsistent db _ _ _ _ _ c
        (rw
          (unique-update (has_job_id job.id) (retry_change delay) _ (λ x y. refl) (λ x y. refl)
            db.jobs)
          c.jobs)
        (every-update (has_job_id job.id) (retry_change delay) _ (λ x h. h) db.jobs c.job_values)
        (rw
          (unique-update (is_attempt job.id job.attempt_count) (failed_attempt describe error now s)
            _ (λ x y. refl) (λ x y. refl) db.attempts)
          c.attempts)
        (every-update (is_attempt job.id job.attempt_count) (failed_attempt describe error now s) _
          (λ x h. h) db.attempts c.attempt_values)

  pub stop_db-IsConsistent :
      (job : ImportJob) (stage status : String) (s : ImportAttemptStatus) (db : Db)
      → IsConsistent db
      → IsConsistent
          (outcome_db stop_change (failed_attempt describe error now s) job stage status now db)
  stop_db-IsConsistent job stage status s db c =
      with_imports-IsConsistent db _ _ _ _ _ c
        (rw (unique-update (has_job_id job.id) stop_change _ (λ x y. refl) (λ x y. refl) db.jobs)
          c.jobs)
        (every-update (has_job_id job.id) stop_change _ (λ x h. h) db.jobs c.job_values)
        (rw
          (unique-update (is_attempt job.id job.attempt_count) (failed_attempt describe error now s)
            _ (λ x y. refl) (λ x y. refl) db.attempts)
          c.attempts)
        (every-update (is_attempt job.id job.attempt_count) (failed_attempt describe error now s) _
          (λ x h. h) db.attempts c.attempt_values)

  pub outcome_db-IsSound :
      (f : ImportJob → ImportJob) (s : ImportAttemptStatus) (job : ImportJob)
      (stage status : String) (db : Db)
      → ((x : ImportJob) → (f x).id ≡ x.id)
      → ((x : ImportJob) → (f x).attempt_count ≡ x.attempt_count)
      → JobIsSound (f job)
      → IsCharged job db
      → IsSound (outcome_db f (failed_attempt describe error now s) job stage status now db)
  outcome_db-IsSound f s job stage status db id count sound c =
      let g = failed_attempt describe error now s in
      let p = is_attempt job.id job.attempt_count in
      IsSound-change job.id f db (outcome_db f g job stage status now db) job id c.found refl
        (record {
          sound = sound;
          numbers =
              IsNumbered-update p g db.attempts (f job) (λ x. refl) (λ x. refl)
                (IsNumbered-same db.attempts job (f job) c.numbers (id job) (count job));
        })
        (λ j other numbers. IsNumbered-update p g db.attempts j (λ x. refl) (λ x. refl) numbers)
        c.others
        (IsKeyed-change (has_job_id job.id) f db (outcome_db f g job stage status now db) id refl
          (ground arith) (owners-update p g db (suc db.next_id) (λ x. refl) (ground arith) c.keyed)
          c.keyed)
