-- ===== src/Imports/Soundness.antt =====
-- The invariant of the import jobs and of their attempts, and its rules for one job.
pub mod Steps
pub mod Consistency
pub mod Keys
pub mod Updates
pub mod Claim
pub mod Failure
pub mod Outcome
pub mod Commits
pub mod Submit
pub mod Dispatch
pub mod Recovery
pub mod Sweep
pub mod Stale
pub mod Frames
pub mod Keeps
pub mod Complete
pub mod Finish
use supply_chain_integration.Base.{
  ℕ, suc, ◌+◌, ◌≤◌, ◌<◌, ◌≡◌, Bool, true, false, ◌&&◌, not, Option, none, some, ltb, ◌==◌, is_none,
  any, every, unique, find, List,
}
use supply_chain_integration.Domain.Enums.{ImportStatus, is_queued, is_processing}
use supply_chain_integration.Store.Rows.{Uuid}
use supply_chain_integration.Store.Rows.Imports.{ImportJob, ImportAttempt}
use supply_chain_integration.Store.Db.{Db}
use supply_chain_integration.Imports.Jobs.{find_job, is_attempt}

abbrev pub has_ended : ImportStatus → Bool
has_ended ImportStatus.queued = false
has_ended ImportStatus.processing = false
has_ended status = true

abbrev pub has_completed : ImportStatus → Bool
has_completed ImportStatus.completed = true
has_completed ImportStatus.completed_with_errors = true
has_completed status = false

pub record JobIsSound (j : ImportJob) : Type 0 where
  pub allowed : 0 < j.max_attempts
  pub budget : j.attempt_count ≤ j.max_attempts
  pub queued_budget : is_queued j.status ≡ true → j.attempt_count < j.max_attempts
  pub processing_attempt : is_processing j.status ≡ true → 0 < j.attempt_count
  pub processing_lease : is_none j.lease_expires_at ≡ not (is_processing j.status)
  pub processing_worker : is_none j.worker_id ≡ not (is_processing j.status)
  pub ended_at : has_ended j.status ≡ true → is_none j.completed_at ≡ false
  pub totals : j.total_records ≡ j.accepted_records + j.rejected_records

-- An attempt of the job with a number beyond its count.
abbrev pub beyond : ImportJob → ImportAttempt → Bool
beyond j a = a.import_job_id == j.id && ltb j.attempt_count a.attempt_number

-- No attempt of the job has a number beyond its count, and the current one is there.
pub record IsNumbered (attempts : List ImportAttempt) (j : ImportJob) : Type 0 where
  pub numbered : any (beyond j) attempts ≡ false
  pub current :
      0 < j.attempt_count → is_none (find (is_attempt j.id j.attempt_count) attempts) ≡ false

pub record IsTracked (attempts : List ImportAttempt) (j : ImportJob) : Type 0 where
  pub sound : JobIsSound j
  pub numbers : IsNumbered attempts j

abbrev pub same_job_id : ImportJob → ImportJob → Bool
same_job_id a b = a.id == b.id

abbrev pub older_job : ℕ → ImportJob → Bool
older_job next_id j = ltb j.id next_id

abbrev pub older_owner : ℕ → ImportAttempt → Bool
older_owner next_id a = ltb a.import_job_id next_id

-- The ids of the jobs are primary keys, and every id in use was drawn before.
pub record IsKeyed (db : Db) : Type 0 where
  pub keys : unique same_job_id db.jobs ≡ true
  pub fresh : every (older_job db.next_id) db.jobs ≡ true
  pub owners : every (older_owner db.next_id) db.attempts ≡ true

-- The invariant of a database: every job that can be found is sound and its attempts are numbered.
pub record IsSound (db : Db) : Type 0 where
  pub keyed : IsKeyed db
  pub at : (id : Uuid) (j : ImportJob) → find_job id db ≡ some j → IsTracked db.attempts j
