-- ===== src/Worker/Handling.antt =====
-- What a run of the task does after an error, as a step of the life cycle.
use supply_chain_integration.Base.{
  ℕ, zero, suc, ◌-◌, ◌<◌, ◌≡◌, refl, sym, subst, true, false, Bool-cases, inl, inr, String, Option,
  some, if◌then◌else◌, arith,
}
use supply_chain_integration.Domain.Errors.{Exn, ok}
use supply_chain_integration.Settings.{Settings}
use supply_chain_integration.Objects.{S3Client}
use supply_chain_integration.Store.Rows.{Uuid, Time}
use supply_chain_integration.Store.Rows.Imports.{ImportJob}
use supply_chain_integration.Store.Db.{Db}
use supply_chain_integration.Store.Constraints.{IsConsistent}
use supply_chain_integration.Imports.Jobs.{find_job, find_current_attempt}
use supply_chain_integration.Imports.Payload.{Externals}
use supply_chain_integration.Imports.Execute.{can_claim, claimed_job}
use supply_chain_integration.Imports.Failure.Record.{can_retry, record_import_failure}
use supply_chain_integration.Imports.Failure.Policy.{classify_import_failure, calculate_retry_delay}
use supply_chain_integration.Imports.Soundness.{IsSound, JobIsSound, IsTracked, has_completed}
use supply_chain_integration.Imports.Soundness.Commits.{
  disposition, outcome, record_import_failure-IsSound,
}
use supply_chain_integration.Imports.Soundness.Outcome.{charged}
use supply_chain_integration.Worker.Tasks.{TaskResult, Run, failed, retry, handle_failure}
use supply_chain_integration.Worker.Lifecycle.{
  JobView, waiting, succeeded, view, TaskStep, again, gave_up, unrecorded,
}

-- The job took a step of the abstract machine, and the database is as it should be.
abbrev pub Refines : Time → Uuid → ImportJob → TaskResult × Db → Type 0
Refines now id job end =
    (job' : ImportJob) × (find_job id end.1 ≡ some job')
    × TaskStep now (view job) end.0 (view job')
    × IsConsistent end.1
    × IsSound end.1

-- A job that can be claimed waits with at least one attempt left.
abbrev pub left : ImportJob → ℕ
left job = job.max_attempts - suc job.attempt_count

pub claimable-waiting :
    (now : ℕ) (job : ImportJob)
    → JobIsSound job
    → can_claim now job ≡ true
    → view job ≡ waiting (suc (left job))
claimable-waiting now job s free = ground (arith, s.queued_budget)

pub completed-view : (job : ImportJob) → has_completed job.status ≡ true → view job ≡ succeeded
completed-view job h = ground arith

-- The steps, with what is known of the views as equations.
again_of :
    (now : Time) (v v' : JobView) (m delay : ℕ)
    → v ≡ waiting (suc m)
    → v' ≡ waiting m
    → 0 < m
    → TaskStep now v (retry delay) v'
again_of now v v' zero delay e e' h = elim h [ ]
again_of now v v' (suc n) delay e e' h = rw (e, e') (again n delay)

pub step_of :
    (now : Time) (v v' w w' : JobView) (result : TaskResult)
    → v ≡ w
    → v' ≡ w'
    → TaskStep now w result w'
    → TaskStep now v result v'
step_of now v v' w w' result e e' step = rw (e, e') step

module _ {ℓ} {O : Type ℓ} (settings : Settings) (ext : Externals) (client : S3Client O)
    (describe : Exn → String) (worker_id : String) (celery_task_id : Option String) where
  -- After the claim the current attempt is there, so the failure is charged to it.
  charged-claimed :
      (id now : ℕ) (job : ImportJob) (db : Db)
      → find_job id db ≡ some (claimed_job settings now worker_id job)
      → IsSound db
      → charged (claimed_job settings now worker_id job) db ≡ claimed_job settings now worker_id job
  unfolding find_current_attempt
  charged-claimed id now job db found s =
      let t : IsTracked db.attempts (claimed_job settings now worker_id job) = s.at id _ found in
      rw (t.numbers.current (omega arith)) refl

  outcome-again :
      (error : Exn) (now later : ℕ) (id : Uuid) (job : ImportJob)
      → JobIsSound job
      → can_claim now job ≡ true
      → let claim = claimed_job settings now worker_id job in
        TaskStep now
          (view job)
          (if can_retry claim error
            then retry (calculate_retry_delay settings claim.attempt_count)
            else failed id (classify_import_failure error).1)
          (view (outcome settings describe error later claim))
  outcome-again error now later id job s free =
      elim (Bool-cases (can_retry (claimed_job settings now worker_id job) error)) [
        | inl more ↦ rw more (
            again_of now (view job) _ (left job) _ (claimable-waiting now job s free) refl
              (ground arith))
        | inr over ↦ rw over (
            step_of now (view job) _ _ _ _ (claimable-waiting now job s free) refl
              (gave_up (left job) id _))
      ]

  handled :
      (id : Uuid) (job : ImportJob) (error : Exn) (run : Run O) (db db' : Db)
      → run.reachable_again ≡ true
      → record_import_failure settings describe worker_id celery_task_id id error run.failed_at db
        ≡ ok (disposition settings job error, db')
      → handle_failure settings ext client describe worker_id celery_task_id id error run db ≡ (
        if can_retry job error
            then retry (calculate_retry_delay settings job.attempt_count)
            else failed id (classify_import_failure error).1,
        db',
      )
  unfolding handle_failure
  handled id job error run db db' up wrote = ground arith

  -- What the run answers once its failure is recorded.
  recorded_lem :
      (id now : ℕ) (job : ImportJob) (error : Exn) (run : Run O) (db : Db)
      → find_job id db ≡ some (claimed_job settings now worker_id job)
      → JobIsSound job
      → can_claim now job ≡ true
      → IsConsistent db
      → IsSound db
      → run.reachable_again ≡ true
      → Refines now id job
          (handle_failure settings ext client describe worker_id celery_task_id id error run db)
  unfolding handle_failure
  recorded_lem id now job error run db found js free c s up =
      let claim = claimed_job settings now worker_id job in
      let (db', wrote, there, c', s') =
        record_import_failure-IsSound settings describe worker_id celery_task_id id claim error
          run.failed_at db c s found in
      let e = charged-claimed id now job db found s in
      let wrote' =
        subst
          (λ j.
            record_import_failure settings describe worker_id celery_task_id id error run.failed_at
              db
            ≡ ok (disposition settings j error, db'))
          e wrote in
      subst (Refines now id job) (sym (handled id claim error run db db' up wrote')) (
        outcome settings describe error run.failed_at claim,
        subst (λ j. find_job id db' ≡ some (outcome settings describe error run.failed_at j)) e
            there,
        outcome-again error now run.failed_at id job js free,
        c',
        s',
      )

  unrecorded_lem :
      (id now : ℕ) (job : ImportJob) (error : Exn) (run : Run O) (db : Db)
      → find_job id db ≡ some (claimed_job settings now worker_id job)
      → JobIsSound job
      → can_claim now job ≡ true
      → IsConsistent db
      → IsSound db
      → run.reachable_again ≡ false
      → Refines now id job
          (handle_failure settings ext client describe worker_id celery_task_id id error run db)
  unfolding handle_failure
  unrecorded_lem id now job error run db found js free c s down = rw down (
    claimed_job settings now worker_id job,
    found,
    step_of now (view job) _ _ _ _ (claimable-waiting now job js free) refl
        (unrecorded (left job) _),
    c,
    s,
  )

  module _ (id : Uuid) (now : Time) (job : ImportJob) (run : Run O) (db : Db)
      (found : find_job id db ≡ some (claimed_job settings now worker_id job)) (js : JobIsSound job)
      (free : can_claim now job ≡ true) (c : IsConsistent db) (s : IsSound db) where
    pub handle_failure-Refines :
        (error : Exn)
        → Refines now id job
            (handle_failure settings ext client describe worker_id celery_task_id id error run db)
    handle_failure-Refines error = elim (Bool-cases run.reachable_again) [
      | inl up ↦ recorded_lem id now job error run db found js free c s up
      | inr down ↦ unrecorded_lem id now job error run db found js free c s down
    ]
