-- ===== src/Imports/Soundness/Dispatch.antt =====
-- The mark of a job that was handed to the workers' queue.
use supply_chain_integration.Base.{
  suc, ◌≡◌, refl, true, false, ◌==◌, find-update_other, Bool-cases, inl, inr, some, [], ◌∷◌, ◌++◌,
  update, unique-update, every-update, every_weaken, if◌then◌else◌, arith,
}
use supply_chain_integration.Domain.Enums.{is_queued}
use supply_chain_integration.Domain.Errors.{ok}
use supply_chain_integration.Store.Rows.{Uuid, Time}
use supply_chain_integration.Store.Rows.Imports.{ImportJob}
use supply_chain_integration.Store.Db.{Db}
use supply_chain_integration.Store.Session.{flush}
use supply_chain_integration.Store.Constraints.{
  IsConsistent, constraints_hold, constraints_hold_of_IsConsistent,
}
use supply_chain_integration.Imports.Jobs.{
  has_job_id, find_job, get_import_job, set_job, record_import_event, operation_event,
}
use supply_chain_integration.Imports.Queue.{dispatched, mark_job_dispatched}
use supply_chain_integration.Imports.Soundness.{IsTracked, IsSound, older_owner}
use supply_chain_integration.Imports.Soundness.Steps.{dispatched-JobIsSound}
use supply_chain_integration.Imports.Soundness.Keys.{IsKeyed-change}
use supply_chain_integration.Imports.Soundness.Updates.{
  find_job-id, find_job-own, find_job-changed, IsSound-change, IsNumbered-same,
}
use supply_chain_integration.Imports.Soundness.Consistency.{with_imports, with_imports-IsConsistent}

abbrev dispatched_db : ImportJob → Time → Db → Db
dispatched_db job now db =
    with_imports db (suc db.next_id) (update (has_job_id job.id) (dispatched now) db.jobs)
      db.attempts db.job_errors
      (db.events ++ operation_event db.next_id job "Redis" "job.dispatched" "succeeded" now ∷ [])

dispatched_db-IsConsistent :
    (job : ImportJob) (now : Time) (db : Db)
    → IsConsistent db
    → IsConsistent (dispatched_db job now db)
dispatched_db-IsConsistent job now db c =
    with_imports-IsConsistent db _ _ _ _ _ c
      (rw (unique-update (has_job_id job.id) (dispatched now) _ (λ x y. refl) (λ x y. refl) db.jobs)
        c.jobs)
      (every-update (has_job_id job.id) (dispatched now) _ (λ x h. h) db.jobs c.job_values)
      c.attempts c.attempt_values

dispatched_db-IsSound :
    (id : Uuid) (job : ImportJob) (now : Time) (db : Db)
    → find_job id db ≡ some job
    → IsSound db
    → IsSound (dispatched_db job now db)
dispatched_db-IsSound id job now db found s =
    let t : IsTracked db.attempts job = s.at id job found in
    IsSound-change job.id (dispatched now) db (dispatched_db job now db) job (λ x. refl)
      (find_job-own id db job found) refl
      (record {
        sound = dispatched-JobIsSound now job t.sound;
        numbers = IsNumbered-same db.attempts job (dispatched now job) t.numbers refl refl;
      })
      (λ j other numbers. numbers) (λ id' j _ found'. s.at id' j found')
      (IsKeyed-change (has_job_id job.id) (dispatched now) db (dispatched_db job now db) (λ x. refl)
        refl (ground arith)
        (every_weaken (older_owner db.next_id) (older_owner (suc db.next_id)) (λ a h. ground arith)
          db.attempts s.keyed.owners)
        s.keyed)

mark_job_dispatched-commits :
    (id : Uuid) (job : ImportJob) (now : Time) (db : Db)
    → find_job id db ≡ some job
    → is_queued job.status ≡ true
    → constraints_hold (dispatched_db job now db) ≡ true
    → mark_job_dispatched id now db ≡ ok (dispatched now job, dispatched_db job now db)
unfolding mark_job_dispatched get_import_job set_job record_import_event flush
mark_job_dispatched-commits id job now db found queued holds = ground arith

mark_job_dispatched-ignores :
    (id : Uuid) (job : ImportJob) (now : Time) (db : Db)
    → find_job id db ≡ some job
    → is_queued job.status ≡ false
    → mark_job_dispatched id now db ≡ ok (job, db)
unfolding mark_job_dispatched get_import_job
mark_job_dispatched-ignores id job now db found other = ground arith

abbrev pub dispatch_result : Time → ImportJob → ImportJob
dispatch_result now job = if is_queued job.status then dispatched now job else job

others_same :
    (id id' : Uuid) (job : ImportJob) (now : Time) (db : Db)
    → find_job id db ≡ some job
    → (id' == id) ≡ false
    → find_job id' (dispatched_db job now db) ≡ find_job id' db
unfolding find_job
others_same id id' job now db found other =
    let e : job.id ≡ id = find_job-id id db job found in
    find-update_other (has_job_id job.id) (dispatched now) (has_job_id id') (λ x. refl)
      (λ x h. ground (arith, e)) db.jobs

-- In a consistent database whose jobs satisfy the invariant, marking a job as dispatched always
-- succeeds: the job gets the instant of the dispatch if it is queued and stays as it is if not, all
-- other jobs stay as they are, and the database is again consistent and satisfies the invariant.
pub mark_job_dispatched-IsSound :
    (id : Uuid) (job : ImportJob) (now : Time) (db : Db)
    → IsConsistent db
    → IsSound db
    → find_job id db ≡ some job
    → (db' : Db) × (mark_job_dispatched id now db ≡ ok (dispatch_result now job, db'))
      × (find_job id db' ≡ some (dispatch_result now job))
      × ((id' : Uuid) → (id' == id) ≡ false → find_job id' db' ≡ find_job id' db)
      × IsConsistent db'
      × IsSound db'
mark_job_dispatched-IsSound id job now db c s found = elim (Bool-cases (is_queued job.status)) [
  | inl queued ↦
      let c' = dispatched_db-IsConsistent job now db c in
      (
        dispatched_db job now db,
        rw queued (
            mark_job_dispatched-commits id job now db found queued
              (constraints_hold_of_IsConsistent (dispatched_db job now db) c')),
        rw queued (
            find_job-changed id (dispatched now) db (dispatched_db job now db) job (λ x. refl) found
              refl),
        λ id' other. others_same id id' job now db found other,
        c',
        dispatched_db-IsSound id job now db found s,
      )
  | inr other ↦ (
    db,
    rw other (mark_job_dispatched-ignores id job now db found other),
    rw other found,
    λ id' h. refl,
    c,
    s,
  )
]
