-- ===== src/Worker/Refinement.antt =====
-- `process_import_job_task` implements the life cycle: whatever a run of it meets, the job makes one
-- step of the abstract machine.
use supply_chain_integration.Base.{
  ◌≡◌, refl, sym, subst, ◌<◌, true, false, Bool-cases, inl, inr, String, Option, none, some, arith,
}
use supply_chain_integration.Domain.Errors.{Exn, Result, ok, err, resource_not_found}
use supply_chain_integration.Settings.{Settings}
use supply_chain_integration.Objects.{S3Client}
use supply_chain_integration.Store.Rows.{Uuid, Time}
use supply_chain_integration.Store.Rows.Imports.{ImportJob}
use supply_chain_integration.Store.Db.{Db}
use supply_chain_integration.Store.Constraints.{IsConsistent}
use supply_chain_integration.Imports.Jobs.{find_job}
use supply_chain_integration.Imports.Payload.{Externals}
use supply_chain_integration.Imports.Execute.{
  too_early, can_claim, claimed_job, claimed, claim_job, process_job, execute_import_job,
}
use supply_chain_integration.Imports.Soundness.{IsSound, JobIsSound, IsTracked}
use supply_chain_integration.Imports.Soundness.Claim.{claim_job-IsSound}
use supply_chain_integration.Imports.Soundness.Finish.{process_job-IsSound}
use supply_chain_integration.Imports.Runs.{execute_import_job-skips, execute_import_job-fails}
use supply_chain_integration.Worker.Tasks.{
  TaskResult, Run, returned, not_found, handle_failure, process_import_job_task,
}
use supply_chain_integration.Worker.Lifecycle.{IsHeldBack, view, ignored, done, lost}
use supply_chain_integration.Worker.Handling.{
  Refines, left, claimable-waiting, completed-view, step_of, handle_failure-Refines,
}

not_due :
    (now : Time) (retry : Option Time)
    → too_early retry now ≡ true
    → (t : Time) × (retry ≡ some t) × (now < t)
not_due now none e = absurd (cc e)
not_due now (some t) e = (t, refl, ground arith)

held_back : (now : Time) (job : ImportJob) → can_claim now job ≡ false → IsHeldBack now job
held_back now job busy = elim (Bool-cases (too_early job.next_retry_at now)) [
  | inl early ↦ inr (not_due now job.next_retry_at early)
  | inr due ↦ inl (λ e. absurd (ground (arith, e, due, busy)))
]

module _ {ℓ} {O : Type ℓ} (settings : Settings) (ext : Externals) (client : S3Client O)
    (describe : Exn → String) (worker_id : String) (celery_task_id : Option String) where
  abbrev task : Uuid → Run O → Db → TaskResult × Db
  task id run db =
      process_import_job_task settings ext client describe worker_id celery_task_id id run db

  executes : Uuid → Run O → Db → Result ImportJob × Db
  executes id run db =
      execute_import_job settings ext client worker_id celery_task_id id run.now run.done
        run.objects db

  task-returned :
      (id : Uuid) (run : Run O) (db db' : Db) (job : ImportJob)
      → run.reachable ≡ true
      → executes id run db ≡ (ok job, db')
      → task id run db ≡ (returned job.id job.status, db')
  unfolding process_import_job_task executes
  task-returned id run db db' job up h = ground arith

  abbrev after_error : Uuid → Exn → Run O → Db → TaskResult × Db
  after_error id resource_not_found run db = (not_found id, db)
  after_error id error run db =
      handle_failure settings ext client describe worker_id celery_task_id id error run db

  task-error :
      (id : Uuid) (error : Exn) (run : Run O) (db db' : Db)
      → run.reachable ≡ true
      → executes id run db ≡ (err error, db')
      → task id run db ≡ after_error id error run db'
  unfolding process_import_job_task executes
  task-error id error run db db' up h = ground arith

  module _ (id : Uuid) (now : Time) (job : ImportJob) (run : Run O) (db : Db)
      (found : find_job id db ≡ some (claimed_job settings now worker_id job)) (js : JobIsSound job)
      (free : can_claim now job ≡ true) (c : IsConsistent db) (s : IsSound db) where
    after_error-Refines : (error : Exn) → Refines now id job (after_error id error run db)
    after_error-Refines resource_not_found = (
      claimed_job settings now worker_id job,
      found,
      step_of now (view job) _ _ _ _ (claimable-waiting now job js free) refl (lost (left job) id),
      c,
      s,
    )
    after_error-Refines error =
        handle_failure-Refines settings ext client describe worker_id celery_task_id id now job run
          db found js free c s error

  executes-done :
      (id : Uuid) (run : Run O) (db db' db'' : Db) (claim job : ImportJob)
      → claim_job settings run.now worker_id celery_task_id id db ≡ ok (claimed claim, db')
      → process_job ext client run.done id run.objects db' ≡ ok (job, db'')
      → executes id run db ≡ (ok job, db'')
  unfolding executes execute_import_job
  executes-done id run db db' db'' claim job took processed = ground arith

  -- What follows a claim.
  after_claim-Refines :
      (id : Uuid) (run : Run O) (db db' : Db) (job : ImportJob) (r : Result (ImportJob × Db))
      → run.reachable ≡ true
      → JobIsSound job
      → can_claim run.now job ≡ true
      → claim_job settings run.now worker_id celery_task_id id db
        ≡ ok (claimed (claimed_job settings run.now worker_id job), db')
      → find_job id db' ≡ some (claimed_job settings run.now worker_id job)
      → IsConsistent db'
      → IsSound db'
      → process_job ext client run.done id run.objects db' ≡ r
      → Refines run.now id job (task id run db)
  unfolding executes
  after_claim-Refines id run db db' job (ok (job', db'')) up js free took found c s e =
      let (there, completed, c', s') =
        process_job-IsSound ext client run.done id run.objects db' db'' job' s e in
      subst (Refines run.now id job)
        (sym (
          task-returned id run db db'' job' up (
            executes-done id run db db' db'' (claimed_job settings run.now worker_id job) job' took
              e)))
        (
          job',
          there,
          step_of run.now (view job) (view job') _ _ _ (claimable-waiting run.now job js free)
              (completed-view job' completed) (done (left job) job'.id job'.status completed),
          c',
          s',
        )
  after_claim-Refines id run db db' job (err error) up js free took found c s e =
      subst (Refines run.now id job)
        (sym (
          task-error id error run db db' up (
            execute_import_job-fails settings ext client worker_id celery_task_id id run.now
              run.done run.objects db db' (claimed_job settings run.now worker_id job) error took
              e)))
        (after_error-Refines id run.now job run db' found js free c s error)

  pub process_import_job_task-Refines :
      (id : Uuid) (run : Run O) (db : Db) (job : ImportJob)
      → IsConsistent db
      → IsSound db
      → find_job id db ≡ some job
      → run.reachable ≡ true
      → Refines run.now id job
          (process_import_job_task settings ext client describe worker_id celery_task_id id run db)
  unfolding executes
  process_import_job_task-Refines id run db job c s found up =
      elim (Bool-cases (can_claim run.now job)) [
        | inl free ↦
            let t : IsTracked db.attempts job = s.at id job found in
            let (db', took, there, c', s') =
              claim_job-IsSound settings run.now worker_id celery_task_id id job db c s found
                free in
            after_claim-Refines id run db db' job
              (process_job ext client run.done id run.objects db') up t.sound free took there c' s'
              refl
        | inr busy ↦
            subst (Refines run.now id job)
              (sym (
                task-returned id run db db job up (
                  execute_import_job-skips settings ext client worker_id celery_task_id id run.now
                    run.done run.objects db job found busy)))
              (job, found, ignored job (held_back run.now job busy), c, s)
      ]
