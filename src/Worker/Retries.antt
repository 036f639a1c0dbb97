-- ===== src/Worker/Retries.antt =====
-- Celery puts no bound on the retries of `process_import_job_task`; that they end is due to the
-- attempts of the job.
use supply_chain_integration.Base.{
  ℕ, suc, ◌≤◌, ◌<◌, ◌≡◌, refl, sym, ap, subst, ◌⊎◌, inl, inr, Bool, true, false, String, Option,
  some, List, [], ◌∷◌, All, length, arith,
}
use supply_chain_integration.Domain.Errors.{Exn}
use supply_chain_integration.Settings.{Settings}
use supply_chain_integration.Objects.{S3Client}
use supply_chain_integration.Store.Rows.{Uuid, Time}
use supply_chain_integration.Store.Rows.Imports.{ImportJob}
use supply_chain_integration.Store.Db.{Db}
use supply_chain_integration.Store.Constraints.{IsConsistent}
use supply_chain_integration.Imports.Jobs.{find_job}
use supply_chain_integration.Imports.Payload.{Externals}
use supply_chain_integration.Imports.Soundness.{IsSound}
use supply_chain_integration.Worker.Tasks.{
  TaskResult, Run, returned, not_found, failed, retry, raised, process_import_job_task, deliver,
}
use supply_chain_integration.Worker.Lifecycle.{
  JobView, waiting, view, TaskStep, ignored, done, again, gave_up, lost, unrecorded,
}
use supply_chain_integration.Worker.Refinement.{process_import_job_task-Refines}

-- How many runs are enough.
abbrev pub runs_needed : JobView → ℕ
runs_needed (waiting left) = suc left
runs_needed v = 1

abbrev pub is_retry : TaskResult → Bool
is_retry (retry delay) = true
is_retry result = false

retry-cases : (r : TaskResult) → ((delay : ℕ) × (r ≡ retry delay)) ⊎ (is_retry r ≡ false)
retry-cases (retry delay) = inl (delay, refl)
retry-cases (returned id status) = inr refl
retry-cases (not_found id) = inr refl
retry-cases (failed id code) = inr refl
retry-cases (raised e) = inr refl

retry-runs_needed :
    (now : Time) (v v' : JobView) (result : TaskResult) (delay : ℕ)
    → TaskStep now v result v'
    → result ≡ retry delay
    → runs_needed v' < runs_needed v
retry-runs_needed _ _ _ _ delay (ignored job held) e = absurd (cc e)
retry-runs_needed _ _ _ _ delay (done n id status h) e = absurd (cc e)
retry-runs_needed _ _ _ _ delay (again n d) e = omega arith
retry-runs_needed _ _ _ _ delay (gave_up n id code) e = absurd (cc e)
retry-runs_needed _ _ _ _ delay (lost n id) e = absurd (cc e)
retry-runs_needed _ _ _ _ delay (unrecorded n d) e = omega arith

runs_needed-positive : (v : JobView) → 1 ≤ runs_needed v
runs_needed-positive v = ground arith

module _ {ℓ} {O : Type ℓ} (settings : Settings) (ext : Externals) (client : S3Client O)
    (describe : Exn → String) (worker_id : String) (celery_task_id : Option String) where
  abbrev delivers : Uuid → List (Run O) → Db → Option TaskResult × Db
  delivers id runs db = deliver settings ext client describe worker_id celery_task_id id runs db

  -- A delivery of the task has ended.
  abbrev pub Ends : Uuid → Option TaskResult × Db → Type 0
  Ends id end =
      (result : TaskResult) × (job : ImportJob) × (end.0 ≡ some result)
      × (is_retry result ≡ false)
      × (find_job id end.1 ≡ some job)
      × IsConsistent end.1
      × IsSound end.1

  abbrev task : Uuid → Run O → Db → TaskResult × Db
  task id run db =
      process_import_job_task settings ext client describe worker_id celery_task_id id run db

  deliver-again :
      (id : Uuid) (run : Run O) (runs : List (Run O)) (db db' : Db) (delay : ℕ)
      → task id run db ≡ (retry delay, db')
      → delivers id (run ∷ runs) db ≡ delivers id runs db'
  unfolding deliver
  deliver-again id run runs db db' delay e = ground arith

  deliver-last :
      (id : Uuid) (run : Run O) (runs : List (Run O)) (db db' : Db) (result : TaskResult)
      → is_retry result ≡ false
      → task id run db ≡ (result, db')
      → delivers id (run ∷ runs) db ≡ (some result, db')
  unfolding deliver
  deliver-last id run runs db db' result last e = ground arith

  -- With one run more than the job has attempts left, each of which finds the database reachable,
  -- and whatever else they meet, a delivery of the task ends: the last run answers something other
  -- than a retry, and the database is consistent and satisfies the invariant.
  pub deliver-Ends :
      (id : Uuid) (runs : List (Run O)) (db : Db) (job : ImportJob)
      → IsConsistent db
      → IsSound db
      → find_job id db ≡ some job
      → All (λ run. run.reachable ≡ true) runs
      → runs_needed (view job) ≤ length runs
      → Ends id (deliver settings ext client describe worker_id celery_task_id id runs db)
  deliver-Ends id [] db job c s found up enough =
      absurd (omega (arith, runs_needed-positive (view job)))
  deliver-Ends id (run ∷ runs) db job c s found up enough =
      let (job', there, step, c', s') =
        process_import_job_task-Refines settings ext client describe worker_id celery_task_id id run
          db job c s found up.0 in
      let (result, db') = task id run db in
      elim (retry-cases result) [
        | inl (delay, e) ↦
            subst (Ends id) (sym (deliver-again id run runs db db' delay (ap (λ r. (r, db')) e))) (
              deliver-Ends id runs db' job' c' s' there up.1 (
                omega
                  (arith, retry-runs_needed run.now (view job) (view job') result delay step e)))
        | inr last ↦
            subst (Ends id) (sym (deliver-last id run runs db db' result last refl))
              (result, job', refl, last, there, c', s')
      ]
