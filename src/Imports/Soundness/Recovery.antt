-- ===== src/Imports/Soundness/Recovery.antt =====
-- The recovery of jobs whose lease expired.
use supply_chain_integration.Base.{
  ◌≡◌, refl, false, Bool-cases, inl, inr, some, update, is_none, unique-update, every-update,
  if◌then◌else◌, ltb, arith,
}
use supply_chain_integration.Domain.Errors.{ok}
use supply_chain_integration.Store.Rows.{Time}
use supply_chain_integration.Store.Rows.Imports.{ImportJob}
use supply_chain_integration.Store.Db.{Db}
use supply_chain_integration.Store.Constraints.{IsConsistent, same_submission, job_checks}
use supply_chain_integration.Imports.Jobs.{
  has_job_id, find_job, is_attempt, find_current_attempt, get_current_attempt, set_job, set_attempt,
}
use supply_chain_integration.Imports.Recovery.{
  abandoned_attempt, requeued_job, exhausted_job, recover_job,
}
use supply_chain_integration.Imports.Soundness.{IsTracked, IsSound}
use supply_chain_integration.Imports.Soundness.Steps.{
  requeued_job-JobIsSound, exhausted_job-JobIsSound,
}
use supply_chain_integration.Imports.Soundness.Keys.{IsKeyed-change, owners-update}
use supply_chain_integration.Imports.Soundness.Updates.{
  IsSound-change, IsNumbered-same, IsNumbered-update,
}
use supply_chain_integration.Imports.Soundness.Consistency.{with_imports, with_imports-IsConsistent}

-- What becomes of a stale job.
abbrev pub recovered : Time → ImportJob → ImportJob
recovered now job =
    if ltb job.attempt_count job.max_attempts then requeued_job now job else exhausted_job now job

-- The change that the loop makes for one job, of which it already knows the attempts.
abbrev pub change : Time → ImportJob → ImportJob → ImportJob
change now job =
    if ltb job.attempt_count job.max_attempts then requeued_job now else exhausted_job now

abbrev pub recovered_db : Time → ImportJob → Db → Db
recovered_db now job db =
    with_imports db db.next_id (update (has_job_id job.id) (change now job) db.jobs)
      (update (is_attempt job.id job.attempt_count) (abandoned_attempt now) db.attempts)
      db.job_errors db.events

pub change-id : (now : Time) (job x : ImportJob) → (change now job x).id ≡ x.id
change-id now job x = ground arith

change-count : (now : Time) (job x : ImportJob) → (change now job x).attempt_count ≡ x.attempt_count
change-count now job x = ground arith

pub recovered_db-IsConsistent :
    (now : Time) (job : ImportJob) (db : Db)
    → IsConsistent db
    → IsConsistent (recovered_db now job db)
recovered_db-IsConsistent now job db c =
    with_imports-IsConsistent db _ _ _ _ _ c
      (rw
        (unique-update (has_job_id job.id) (change now job) same_submission (λ x y. ground arith)
          (λ x y. ground arith) db.jobs)
        c.jobs)
      (every-update (has_job_id job.id) (change now job) job_checks (λ x h. ground arith) db.jobs
        c.job_values)
      (rw
        (unique-update (is_attempt job.id job.attempt_count) (abandoned_attempt now) _ (λ x y. refl)
          (λ x y. refl) db.attempts)
        c.attempts)
      (every-update (is_attempt job.id job.attempt_count) (abandoned_attempt now) _ (λ x h. h)
        db.attempts c.attempt_values)

pub recovered_db-IsSound :
    (now : Time) (job : ImportJob) (db : Db)
    → find_job job.id db ≡ some job
    → IsSound db
    → IsSound (recovered_db now job db)
recovered_db-IsSound now job db found s =
    let t : IsTracked db.attempts job = s.at job.id job found in
    let p = is_attempt job.id job.attempt_count in
    IsSound-change job.id (change now job) db (recovered_db now job db) job (change-id now job)
      found refl
      (record {
        sound = elim (Bool-cases (ltb job.attempt_count job.max_attempts)) [
          | inl left ↦ rw left (requeued_job-JobIsSound now job left t.sound)
          | inr over ↦ rw over (exhausted_job-JobIsSound now job t.sound)
        ];
        numbers =
            IsNumbered-update p (abandoned_attempt now) db.attempts (change now job job) (λ x. refl)
              (λ x. refl)
              (IsNumbered-same db.attempts job (change now job job) t.numbers
                (change-id now job job) (change-count now job job));
      })
      (λ j other numbers.
        IsNumbered-update p (abandoned_attempt now) db.attempts j (λ x. refl) (λ x. refl) numbers)
      (λ id' j _ found'. s.at id' j found')
      (IsKeyed-change (has_job_id job.id) (change now job) db (recovered_db now job db)
        (change-id now job) refl (ground arith)
        (owners-update p (abandoned_attempt now) db db.next_id (λ x. refl) (ground arith) s.keyed)
        s.keyed)

pub recover_job-returns :
    (now : Time) (job : ImportJob) (db : Db)
    → is_none (find_current_attempt job db) ≡ false
    → recover_job now job db ≡ ok (ltb job.attempt_count job.max_attempts, recovered_db now job db)
unfolding recover_job get_current_attempt set_job set_attempt
recover_job-returns now job db there = ground arith
