-- ===== src/Worker/Lifecycle.antt =====
-- The life cycle of a job as the workers see it, without rows and transactions: an abstract machine
-- for one run of `process_import_job_task`.
use supply_chain_integration.Base.{ℕ, suc, ◌-◌, ◌<◌, ◌≡◌, ◌⊎◌, true, some}
use supply_chain_integration.Domain.Enums.{ImportStatus}
use supply_chain_integration.Store.Rows.{Uuid, Time}
use supply_chain_integration.Store.Rows.Imports.{ImportJob}
use supply_chain_integration.Imports.Soundness.{has_completed}
use supply_chain_integration.Worker.Tasks.{TaskResult, returned, not_found, failed, retry}

-- A job that waits or runs has that many attempts left.
pub data JobView : Type 0 where
  waiting : ℕ → JobView
  running : ℕ → JobView
  succeeded : JobView
  stopped : JobView

abbrev view_as : ImportStatus → ℕ → JobView
view_as ImportStatus.queued left = waiting left
view_as ImportStatus.processing left = running left
view_as ImportStatus.completed left = succeeded
view_as ImportStatus.completed_with_errors left = succeeded
view_as ImportStatus.failed left = stopped

abbrev pub view : ImportJob → JobView
view job = view_as job.status (job.max_attempts - job.attempt_count)

-- The job is not queued, or its retry is later than now.
abbrev pub IsHeldBack : Time → ImportJob → Type 0
IsHeldBack now job =
    ¬ (job.status ≡ ImportStatus.queued) ⊎ ((t : Time) × (job.next_retry_at ≡ some t) × (now < t))

-- One run of the task that starts at `now`, with its answer.
pub data TaskStep (now : Time) : JobView → TaskResult → JobView → Type 0 where
  -- A job that is held back is left alone.
  ignored :
      (job : ImportJob)
      → IsHeldBack now job
      → TaskStep now (view job) (returned job.id job.status) (view job)
  -- The payload was applied.
  done :
      (n : ℕ) (id : Uuid) (status : ImportStatus)
      → has_completed status ≡ true
      → TaskStep now (waiting (suc n)) (returned id status) succeeded
  -- A failure used up one attempt, and there is another.
  again : (n delay : ℕ) → TaskStep now (waiting (suc (suc n))) (retry delay) (waiting (suc n))
  -- A failure that is not retried, or that used up the last attempt.
  gave_up : (n : ℕ) (id : Uuid) (code : _) → TaskStep now (waiting (suc n)) (failed id code) stopped
  -- Two ways to leave the job to the recovery of stale jobs: a row was missing, or the failure
  -- could not be recorded.
  lost : (n : ℕ) (id : Uuid) → TaskStep now (waiting (suc n)) (not_found id) (running n)
  unrecorded : (n delay : ℕ) → TaskStep now (waiting (suc n)) (retry delay) (running n)
