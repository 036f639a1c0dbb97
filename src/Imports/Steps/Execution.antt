-- ===== src/Imports/Steps/Execution.antt =====
-- The execution of a job as a step, and the theorem on all reachable databases.
use supply_chain_integration.Base.{
  Bool, find, ◌==◌, String, Option, some, none, Option-cases, inl, inr, false, Bool-cases, ◌≡◌,
  refl, subst, arith,
}
use supply_chain_integration.Domain.Errors.{Exn, Result, ok, err, resource_not_found}
use supply_chain_integration.Settings.{Settings, InRange}
use supply_chain_integration.Objects.{S3Client}
use supply_chain_integration.Store.Rows.{Uuid, Time}
use supply_chain_integration.Store.Rows.Imports.{ImportJob}
use supply_chain_integration.Store.Db.{Db}
use supply_chain_integration.Store.Session.{transact}
use supply_chain_integration.Imports.Jobs.{find_job}
use supply_chain_integration.Imports.Payload.{Externals, load_import_payload}
use supply_chain_integration.Imports.Execute.{
  Claim, skipped, claimed, can_claim, claim_job, process_job, execute_import_job,
}
use supply_chain_integration.Imports.Soundness.Claim.{claim_job-IsSound}
use supply_chain_integration.Imports.Soundness.Finish.{process_job-IsSound}
use supply_chain_integration.Imports.Replay.{replay_request, replay_failed_import}
use supply_chain_integration.Imports.Replay.Laws.{replay-guards, resubmit-parts}
use supply_chain_integration.Imports.Steps.{
  Step, Reach, register, submit, dispatch, execute, fail, replay, recover, here, next,
}
use supply_chain_integration.Imports.Steps.Preservation.{
  IsValid, same_end, register-IsValid, recover-IsValid, dispatch-IsValid, fail-IsValid,
  submit-IsValid,
}

module _ {ℓ} {O : Type ℓ} (settings : Settings) (ext : Externals) (client : S3Client O)
    (isoformat : Time → String) (describe : Exn → String) where
  claim_fails :
      (w : String) (t : Option String) (id : Uuid) (now : Time) (db : Db)
      → find_job id db ≡ none
      → claim_job settings now w t id db ≡ err resource_not_found
  unfolding claim_job
  claim_fails w t id now db missing = ground arith

  claim_skips :
      (w : String) (t : Option String) (id : Uuid) (now : Time) (db : Db) (job : ImportJob)
      → find_job id db ≡ some job
      → can_claim now job ≡ false
      → claim_job settings now w t id db ≡ ok (skipped job, db)
  unfolding claim_job
  claim_skips w t id now db job found busy = ground arith

  claim-IsValid :
      (w : String) (t : Option String) (id : Uuid) (now : Time) (c : Claim) (db db' : Db)
      → claim_job settings now w t id db ≡ ok (c, db')
      → IsValid db
      → IsValid db'
  claim-IsValid w t id now c db db' h v = elim (Option-cases (find_job id db)) [
    | inl missing ↦ absurd (cc (h, claim_fails w t id now db missing))
    | inr (job, found) ↦ elim (Bool-cases (can_claim now job)) [
      | inr busy ↦
          same_end (claim_job settings now w t id db) (skipped job) c db db'
            (claim_skips w t id now db job found busy) h v
      | inl free ↦
          let (db1, returned, there, consistent, sound) =
            claim_job-IsSound settings now w t id job db v.0 v.1 found free in
          same_end (claim_job settings now w t id db) _ c db1 db' returned h (consistent, sound)
    ]
  ]

  process-IsValid :
      (id : Uuid) (done : Time) (objects : O) (db : Db) (r : Result (ImportJob × Db))
      → process_job ext client done id objects db ≡ r
      → IsValid db
      → IsValid (transact (process_job ext client done id objects) db).1
  process-IsValid id done objects db (err e) h v =
      let same : db ≡ (transact (process_job ext client done id objects) db).1 = ground arith in
      subst IsValid same v
  process-IsValid id done objects db (ok (job, db')) h v =
      let (there, ended, consistent, sound) =
        process_job-IsSound ext client done id objects db db' job v.1 h in
      let same : db' ≡ (transact (process_job ext client done id objects) db).1 = ground arith in
      subst IsValid same (consistent, sound)

  after_claim-IsValid :
      (w : String) (t : Option String) (id : Uuid) (now done : Time) (objects : O) (db : Db)
      (r : Result (Claim × Db))
      → claim_job settings now w t id db ≡ r
      → IsValid db
      → IsValid (execute_import_job settings ext client w t id now done objects db).1
  unfolding execute_import_job
  after_claim-IsValid w t id now done objects db (err e) h v =
      let same : db ≡ (execute_import_job settings ext client w t id now done objects db).1 =
        ground arith in
      subst IsValid same v
  after_claim-IsValid w t id now done objects db (ok (skipped job, db')) h v =
      let same : db ≡ (execute_import_job settings ext client w t id now done objects db).1 =
        ground arith in
      subst IsValid same v
  after_claim-IsValid w t id now done objects db (ok (claimed job, db')) h v =
      let same : (transact (process_job ext client done id objects) db').1
          ≡ (execute_import_job settings ext client w t id now done objects db).1 =
        ground arith in
      subst IsValid same (
        process-IsValid id done objects db' (process_job ext client done id objects db') refl
          (claim-IsValid w t id now (claimed job) db db' h v))

  execute-IsValid :
      (w : String) (t : Option String) (id : Uuid) (now done : Time) (objects : O)
      (result : Result ImportJob) (db db' : Db)
      → execute_import_job settings ext client w t id now done objects db ≡ (result, db')
      → IsValid db
      → IsValid db'
  execute-IsValid w t id now done objects result db db' h v =
      let same : (execute_import_job settings ext client w t id now done objects db).1 ≡ db' =
        rw h refl in
      subst IsValid same
        (after_claim-IsValid w t id now done objects db (claim_job settings now w t id db) refl v)

  replay-IsValid :
      (id : Uuid) (key : String) (now : Time) (objects objects' : O) (answer : ImportJob × Bool)
      (db db' : Db)
      → InRange settings
      → replay_failed_import settings ext client isoformat id key now db objects
        ≡ (ok (answer, db'), objects')
      → IsValid db
      → IsValid db'
  replay-IsValid id key now objects objects' answer db db' range h v =
      let (original, found, failed, again) =
        replay-guards settings ext client isoformat id key now db db' objects objects' answer h in
      let (content, s, loaded, submitted) =
        resubmit-parts settings ext client isoformat original key
          (load_import_payload ext client original objects)
          (find (λ s. s.id == original.supplier_id) db.suppliers) now db db' objects objects' answer
          again in
      submit-IsValid settings ext client isoformat describe (replay_request original s content key)
        now answer objects objects' db db' range submitted v

  Step-IsValid :
      (db db' : Db)
      → InRange settings
      → Step settings ext client isoformat describe db db'
      → IsValid db
      → IsValid db'
  Step-IsValid db db' range (register request supplier _ _ h) v =
      register-IsValid request db db' supplier h v
  Step-IsValid db db' range (submit request now objects objects' answer _ _ h) v =
      submit-IsValid settings ext client isoformat describe request now answer objects objects' db
        db' range h v
  Step-IsValid db db' range (dispatch id now job _ _ h) v = dispatch-IsValid id now job db db' h v
  Step-IsValid db db' range (execute w t id now done objects result _ _ h) v =
      execute-IsValid w t id now done objects result db db' h v
  Step-IsValid db db' range (fail w t id error now d _ _ h) v =
      fail-IsValid settings ext client isoformat describe w t id error now d db db' h v
  Step-IsValid db db' range (replay id key now objects objects' answer _ _ h) v =
      replay-IsValid id key now objects objects' answer db db' range h v
  Step-IsValid db db' range (recover now ids _ _ h) v = recover-IsValid now ids db db' h v

  -- With settings in their ranges, every database that can be reached from a consistent one whose
  -- jobs satisfy the invariant, by any sequence of registrations, submissions, dispatches,
  -- executions, recorded failures, replays and recoveries, is consistent and its jobs satisfy the
  -- invariant.
  pub Reach-IsValid :
      (start db : Db)
      → InRange settings
      → Reach settings ext client isoformat describe start db
      → IsValid start
      → IsValid db
  Reach-IsValid start db range here v = v
  Reach-IsValid start db range (next mid _ before step) v =
      Step-IsValid mid db range step (Reach-IsValid start mid range before v)
