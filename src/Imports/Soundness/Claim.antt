-- ===== src/Imports/Soundness/Claim.antt =====
-- The claim of a job: what it writes, that the database accepts it, and that it keeps the invariant.
use supply_chain_integration.Base.{
  suc, ◌≡◌, refl, true, false, Option, some, String, [], ◌∷◌, ◌++◌, update, any, unique-update,
  every-update, unique-append, every-append, every, any_weaken, arith,
}
use supply_chain_integration.Domain.Errors.{ok}
use supply_chain_integration.Settings.{Settings}
use supply_chain_integration.Store.Rows.{Uuid, Time}
use supply_chain_integration.Store.Rows.Imports.{ImportJob}
use supply_chain_integration.Store.Db.{Db}
use supply_chain_integration.Store.Session.{flush}
use supply_chain_integration.Store.Constraints.{
  IsConsistent, constraints_hold, constraints_hold_of_IsConsistent, same_attempt,
}
use supply_chain_integration.Imports.Jobs.{
  has_job_id, find_job, set_job, add_attempt, record_import_event, operation_event,
}
use supply_chain_integration.Imports.Execute.{
  can_claim, claimed_job, new_attempt, claimed, claim_job,
}
use supply_chain_integration.Imports.Soundness.Steps.{claimed_job-JobIsSound}
use supply_chain_integration.Imports.Soundness.Updates.{
  find_job-own, find_job-changed, IsSound-change, IsNumbered-other, IsNumbered-next,
}
use supply_chain_integration.Imports.Soundness.Keys.{IsKeyed-change, owners-append}
use supply_chain_integration.Imports.Soundness.{beyond, IsTracked, IsSound}
use supply_chain_integration.Imports.Soundness.Consistency.{with_imports, with_imports-IsConsistent}

module _ (settings : Settings) (now : Time) (worker_id : String)
    (celery_task_id : Option String) where
  abbrev pub claim_db : ImportJob → Db → Db
  claim_db job db =
      with_imports db (suc (suc db.next_id))
        (update (has_job_id job.id) (claimed_job settings now worker_id) db.jobs)
        (db.attempts
          ++ new_attempt db.next_id job.id (suc job.attempt_count) celery_task_id worker_id now
            ∷ [])
        db.job_errors
        (db.events
          ++ operation_event (suc db.next_id) job "Celery" "worker.claimed" "running" now ∷ [])

  -- No attempt of the job has the next number yet.
  next_number_free :
      (job : ImportJob) (db : Db)
      → IsTracked db.attempts job
      → any
          (λ a.
            same_attempt a
              (new_attempt db.next_id job.id (suc job.attempt_count) celery_task_id worker_id now))
          db.attempts
        ≡ false
  next_number_free job db t =
      any_weaken _ (beyond job) (λ a h. ground arith) db.attempts t.numbers.numbered

  pub claim_db-IsConsistent :
      (job : ImportJob) (db : Db)
      → IsTracked db.attempts job
      → IsConsistent db
      → IsConsistent (claim_db job db)
  unfolding every
  claim_db-IsConsistent job db t c =
      with_imports-IsConsistent db _ _ _ _ _ c
        (rw
          (unique-update (has_job_id job.id) (claimed_job settings now worker_id) _ (λ x y. refl)
            (λ x y. refl) db.jobs)
          c.jobs)
        (every-update (has_job_id job.id) (claimed_job settings now worker_id) _ (λ x h. h) db.jobs
          c.job_values)
        (rw unique-append (ground (arith, c.attempts, next_number_free job db t)))
        (rw (every-append, c.attempt_values) (ground arith))

  claim_job-commits :
      (id : Uuid) (job : ImportJob) (db : Db)
      → find_job id db ≡ some job
      → can_claim now job ≡ true
      → constraints_hold (claim_db job db) ≡ true
      → claim_job settings now worker_id celery_task_id id db
        ≡ ok (claimed (claimed_job settings now worker_id job), claim_db job db)
  unfolding claim_job set_job add_attempt record_import_event flush
  claim_job-commits id job db found free holds = ground arith

  pub claim_db-IsSound :
      (id : Uuid) (job : ImportJob) (db : Db)
      → find_job id db ≡ some job
      → can_claim now job ≡ true
      → IsSound db
      → IsSound (claim_db job db)
  claim_db-IsSound id job db found free s =
      let t : IsTracked db.attempts job = s.at id job found in
      IsSound-change job.id (claimed_job settings now worker_id) db (claim_db job db) job
        (λ x. refl) (find_job-own id db job found) refl
        (record {
          sound = claimed_job-JobIsSound settings now worker_id job free t.sound;
          numbers = IsNumbered-next db.attempts _ job _ t.numbers refl refl refl refl;
        })
        (λ j other numbers. IsNumbered-other db.attempts _ j other numbers)
        (λ id' j _ found'. s.at id' j found')
        (IsKeyed-change (has_job_id job.id) (claimed_job settings now worker_id) db
          (claim_db job db) (λ x. refl) refl (ground arith)
          (owners-append id job _ db (suc (suc db.next_id)) found refl (ground arith) s.keyed)
          s.keyed)

  -- In a consistent database whose jobs satisfy the invariant, a queued job whose retry is due is
  -- claimed: the transaction commits, the job is processing with one more attempt counted, and
  -- the database is again consistent and satisfies the invariant.
  pub claim_job-IsSound :
      (id : Uuid) (job : ImportJob) (db : Db)
      → IsConsistent db
      → IsSound db
      → find_job id db ≡ some job
      → can_claim now job ≡ true
      → (db' : Db) × (claim_job settings now worker_id celery_task_id id db
          ≡ ok (claimed (claimed_job settings now worker_id job), db'))
        × (find_job id db' ≡ some (claimed_job settings now worker_id job))
        × IsConsistent db'
        × IsSound db'
  claim_job-IsSound id job db c s found free =
      let c' = claim_db-IsConsistent job db (s.at id job found) c in
      (
        claim_db job db,
        claim_job-commits id job db found free
            (constraints_hold_of_IsConsistent (claim_db job db) c'),
        find_job-changed id (claimed_job settings now worker_id) db (claim_db job db) job
            (λ x. refl) found refl,
        c',
        claim_db-IsSound id job db found free s,
      )
