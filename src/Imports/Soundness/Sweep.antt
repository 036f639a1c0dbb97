-- ===== src/Imports/Soundness/Sweep.antt =====
-- `recover_stale_imports` as a whole: the loop over the stale jobs.
use supply_chain_integration.Base.{
  ◌≡◌, refl, ◌∙◌, true, false, some, List, [], ◌∷◌, ◌==◌, any, unique, is_none, any_weaken,
  find-update_other, find-update_self, if◌then◌else◌, All, ltb, arith,
}
use supply_chain_integration.Domain.Enums.{is_processing}
use supply_chain_integration.Domain.Errors.{ok}
use supply_chain_integration.Store.Rows.{Uuid, Time}
use supply_chain_integration.Store.Rows.Imports.{ImportJob}
use supply_chain_integration.Store.Db.{Db}
use supply_chain_integration.Store.Constraints.{IsConsistent}
use supply_chain_integration.Imports.Jobs.{has_job_id, find_job, find_current_attempt}
use supply_chain_integration.Imports.Recovery.{recover_jobs}
use supply_chain_integration.Imports.Soundness.{IsTracked, IsSound, same_job_id}
use supply_chain_integration.Imports.Soundness.Recovery.{
  recovered, change, change-id, recovered_db, recovered_db-IsConsistent, recovered_db-IsSound,
  recover_job-returns,
}

-- The ids that go back to the queue.
unfoldable pub requeued_ids : List ImportJob → List Uuid
requeued_ids [] = []
requeued_ids (j ∷ js) =
    let rest = requeued_ids js in if ltb j.attempt_count j.max_attempts then j.id ∷ rest else rest

-- A job that is the one with its id and is processing.
abbrev pub IsHeld : Db → ImportJob → Type 0
IsHeld db j = (find_job j.id db ≡ some j) × (is_processing j.status ≡ true)

has_attempt :
    (job : ImportJob) (db : Db)
    → IsHeld db job
    → IsSound db
    → is_none (find_current_attempt job db) ≡ false
unfolding find_current_attempt
has_attempt job db held s =
    let t : IsTracked db.attempts job = s.at job.id job held.0 in
    t.numbers.current (t.sound.processing_attempt held.1)

-- The recovery of one job leaves the others alone.
untouched :
    (now : Time) (job : ImportJob) (db : Db) (id : Uuid)
    → (job.id == id) ≡ false
    → find_job id (recovered_db now job db) ≡ find_job id db
unfolding find_job
untouched now job db id other =
    find-update_other (has_job_id job.id) (change now job) (has_job_id id)
      (λ x. rw (change-id now job x) refl) (λ x h. ground arith) db.jobs

still-IsHeld :
    (now : Time) (job : ImportJob) (db : Db) (js : List ImportJob)
    → any (same_job_id job) js ≡ false
    → All (IsHeld db) js
    → All (IsHeld (recovered_db now job db)) js
unfolding any
still-IsHeld now job db [] apart held = tt
still-IsHeld now job db (j ∷ js) apart held = (
  (untouched now job db j.id (ground arith) ∙ held.0.0, held.0.1),
  still-IsHeld now job db js (ground arith) held.1,
)

found_recovered :
    (now : Time) (job : ImportJob) (db : Db)
    → find_job job.id db ≡ some job
    → find_job job.id (recovered_db now job db) ≡ some (recovered now job)
unfolding find_job
found_recovered now job db found = ground (
  arith,
  find-update_self (has_job_id job.id) (change now job) (λ x. rw (change-id now job x) refl) db.jobs
      job found,
)

pub recover_jobs_lem :
    (now : Time) (jobs : List ImportJob) (db : Db)
    → IsConsistent db
    → IsSound db
    → unique same_job_id jobs ≡ true
    → All (IsHeld db) jobs
    → (db' : Db) × (recover_jobs now jobs db ≡ ok (requeued_ids jobs, db'))
      × IsConsistent db'
      × IsSound db'
      × All (λ j. find_job j.id db' ≡ some (recovered now j)) jobs
      × ((id : Uuid) → any (has_job_id id) jobs ≡ false → find_job id db' ≡ find_job id db)
unfolding recover_jobs requeued_ids unique any
recover_jobs_lem now [] db c s apart held = (db, refl, c, s, tt, λ id h. refl)
recover_jobs_lem now (job ∷ jobs) db c s apart held =
    let db1 = recovered_db now job db in
    let (db2, returned, c2, s2, done, others) =
      recover_jobs_lem now jobs db1 (recovered_db-IsConsistent now job db c)
        (recovered_db-IsSound now job db held.0.0 s) (ground arith)
        (still-IsHeld now job db jobs (ground arith) held.1) in
    (
      db2,
      ground (arith, recover_job-returns now job db (has_attempt job db held.0 s), returned),
      c2,
      s2,
      (
        others job.id (
              any_weaken (has_job_id job.id) (same_job_id job) (λ j h. ground arith) jobs
                (ground arith))
            ∙ found_recovered now job db held.0.0,
        done,
      ),
      λ id h. others id (ground arith) ∙ untouched now job db id (ground arith),
    )
