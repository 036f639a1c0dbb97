-- ===== src/Imports/Soundness/Outcome.antt =====
-- The whole of `record_import_failure`: the attempt that it makes sure of, and its two outcomes.
use supply_chain_integration.Base.{
  suc, ◌≡◌, refl, inl, inr, Option, some, none, Option-cases, String, [], ◌∷◌, ◌++◌, is_none,
  update, every, unique-update, every-update, unique-append, every-append, any_weaken,
  if◌then◌else◌, arith,
}
use supply_chain_integration.Domain.Errors.{Exn, ok}
use supply_chain_integration.Settings.{Settings}
use supply_chain_integration.Store.Rows.{Uuid, Time}
use supply_chain_integration.Store.Rows.Imports.{ImportJob}
use supply_chain_integration.Store.Db.{Db}
use supply_chain_integration.Store.Constraints.{IsConsistent, same_attempt}
use supply_chain_integration.Imports.Jobs.{
  has_job_id, find_job, find_current_attempt, set_job, add_attempt,
}
use supply_chain_integration.Imports.Execute.{new_attempt}
use supply_chain_integration.Imports.Failure.Record.{counted, ensure_attempt}
use supply_chain_integration.Imports.Soundness.{beyond, IsTracked, IsSound}
use supply_chain_integration.Imports.Soundness.Updates.{
  find_job-own, find-changed, find_job-changed, IsNumbered-other, IsNumbered-next,
}
use supply_chain_integration.Imports.Soundness.Keys.{IsKeyed-change, owners-append}
use supply_chain_integration.Imports.Soundness.Consistency.{with_imports, with_imports-IsConsistent}
use supply_chain_integration.Imports.Soundness.Failure.{IsCharged}

-- The job that a failure is charged to: one more attempt where none is there.
abbrev pub charged : ImportJob → Db → ImportJob
charged job db = if is_none (find_current_attempt job db) then counted job else job

module _ (settings : Settings) (describe : Exn → String) (worker_id : String)
    (celery_task_id : Option String) where
  -- The writes for a failure that came before the claim.
  abbrev counted_db : ImportJob → Time → Db → Db
  counted_db job now db =
      with_imports db (suc db.next_id) (update (has_job_id job.id) counted db.jobs)
        (db.attempts
          ++ new_attempt db.next_id job.id (suc job.attempt_count) celery_task_id worker_id now
            ∷ [])
        db.job_errors db.events

  counted_db-IsConsistent :
      (job : ImportJob) (now : Time) (db : Db)
      → IsTracked db.attempts job
      → IsConsistent db
      → IsConsistent (counted_db job now db)
  unfolding every
  counted_db-IsConsistent job now db t c =
      with_imports-IsConsistent db _ _ _ _ _ c
        (rw (unique-update (has_job_id job.id) counted _ (λ x y. refl) (λ x y. refl) db.jobs)
          c.jobs)
        (every-update (has_job_id job.id) counted _ (λ x h. h) db.jobs c.job_values)
        (rw unique-append (
          ground (
            arith,
            c.attempts,
            any_weaken
                (λ a. same_attempt a (
                  new_attempt db.next_id job.id (suc job.attempt_count) celery_task_id worker_id
                    now))
                (beyond job) (λ a h. ground arith) db.attempts t.numbers.numbered,
          )))
        (rw (every-append, c.attempt_values) (ground arith))

  counted_db-IsCharged :
      (id : Uuid) (job : ImportJob) (now : Time) (db : Db)
      → IsConsistent db
      → IsSound db
      → find_job id db ≡ some job
      → find_current_attempt job db ≡ none
      → IsCharged (counted job) (counted_db job now db)
  unfolding find_job find_current_attempt
  counted_db-IsCharged id job now db c s found missing =
      let t : IsTracked db.attempts job = s.at id job found in
      let own : find_job job.id db ≡ some job = find_job-own id db job found in
      record {
        found = find_job-changed job.id counted db (counted_db job now db) job (λ x. refl) own refl;
        budget = ground (arith, t.numbers.current, t.sound.allowed, t.sound.totals);
        numbers = IsNumbered-next db.attempts _ job _ t.numbers refl refl refl refl;
        others = λ id' j other found'.
            elim (find-changed job.id id' counted db job j (λ x. refl) own found') [
              | inl (same, e) ↦ ground (arith, other (rw e refl))
              | inr (apart, found'') ↦
                  let t' = s.at id' j found'' in
                  record {
                    sound = t'.sound;
                    numbers = IsNumbered-other db.attempts _ j other t'.numbers;
                  }
            ];
        consistent = counted_db-IsConsistent job now db t c;
        keyed =
            IsKeyed-change (has_job_id job.id) counted db (counted_db job now db) (λ x. refl) refl
              (ground arith)
              (owners-append id job _ db (suc db.next_id) found refl (ground arith) s.keyed)
              s.keyed;
      }

  -- What `ensure_attempt` returns, and the state that the writes of the outcome start from.
  pub ensure_attempt-IsCharged :
      (id : Uuid) (job : ImportJob) (now : Time) (db : Db)
      → IsConsistent db
      → IsSound db
      → find_job id db ≡ some job
      → (db' : Db) × (ensure_attempt settings describe worker_id celery_task_id job now
            (find_current_attempt job db)
            db
          ≡ ok (charged job db, db'))
        × IsCharged (charged job db) db'
  unfolding ensure_attempt set_job add_attempt
  ensure_attempt-IsCharged id job now db c s found =
      elim (Option-cases (find_current_attempt job db)) [
        | inl missing ↦ (
          counted_db job now db,
          rw missing refl,
          rw missing (counted_db-IsCharged id job now db c s found missing),
        )
        | inr (a, there) ↦
            let t : IsTracked db.attempts job = s.at id job found in
            (
              db,
              rw there refl,
              rw there (record {
                found = find_job-own id db job found;
                budget = record {
                  allowed = t.sound.allowed;
                  budget = t.sound.budget;
                  totals = t.sound.totals;
                };
                numbers = t.numbers;
                others = λ id' j other found'. s.at id' j found';
                consistent = c;
                keyed = s.keyed;
              }),
            )
      ]
