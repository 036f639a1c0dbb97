-- ===== src/Imports/Replay/Laws.antt =====
-- What a replay does to the failed import and to the new one.
use supply_chain_integration.Base.{
  String, Option, none, some, Option-cases, inl, inr, Bool, true, ◌≡◌, refl, sym, subst, [], ◌∷◌,
  ◌==◌, find, find-append, arith,
}
use supply_chain_integration.Domain.Enums.{is_failed, is_queued}
use supply_chain_integration.Domain.Errors.{Result, ok, err}
use supply_chain_integration.Settings.{Settings}
use supply_chain_integration.Objects.{S3Client, StoredObject}
use supply_chain_integration.Store.Rows.{Uuid, Time, Bytes}
use supply_chain_integration.Store.Rows.Catalog.{Supplier}
use supply_chain_integration.Store.Rows.Imports.{ImportJob}
use supply_chain_integration.Store.Db.{Db}
use supply_chain_integration.Imports.Jobs.{has_job_id, find_job}
use supply_chain_integration.Imports.Queue.{Submission, submit_inventory_import}
use supply_chain_integration.Imports.Payload.{
  Externals, load_import_payload, load_import_payload-sha256,
}
use supply_chain_integration.Imports.Replay.{replay_request, resubmit, replay_failed_import}
use supply_chain_integration.Imports.Submission.Writes.{submit_inventory_import-queues}
use supply_chain_integration.Imports.Soundness.Submit.{new_job, submitted_db}

module _ {ℓ} {O : Type ℓ} (settings : Settings) (ext : Externals) (client : S3Client O)
    (isoformat : Time → String) where
  -- A job that was found is found after a submission.
  found_after :
      (id supplier_id : Uuid) (request : Submission) (stored : StoredObject) (now : Time) (db : Db)
      (original : ImportJob)
      → find_job id db ≡ some original
      → find_job id (submitted_db settings supplier_id request stored now db) ≡ some original
  unfolding find_job
  found_after id supplier_id request stored now db original found = ground (
    arith,
    find-append (has_job_id id) db.jobs (new_job settings supplier_id request stored now db ∷ []),
  )

  -- The parts of a replay that ended normally.
  pub resubmit-parts :
      (original : ImportJob) (key : String) (loaded : Result Bytes) (supplier : Option Supplier)
      (now : Time) (db db' : Db) (objects objects' : O) (answer : ImportJob × Bool)
      → resubmit settings ext client isoformat original key loaded supplier now db objects
        ≡ (ok (answer, db'), objects')
      → (content : Bytes) × (s : Supplier) × (loaded ≡ ok content)
        × (submit_inventory_import settings client isoformat
              (replay_request original s content key)
              now
              db
              objects
            ≡ (ok (answer, db'), objects'))
  unfolding resubmit
  resubmit-parts original key (err e) supplier now db db' objects objects' answer h =
      absurd (ground arith)
  resubmit-parts original key (ok content) none now db db' objects objects' answer h =
      absurd (ground arith)
  resubmit-parts original key (ok content) (some s) now db db' objects objects' answer h =
      (content, s, refl, h)

  pub replay-guards :
      (id : Uuid) (key : String) (now : Time) (db db' : Db) (objects objects' : O)
      (answer : ImportJob × Bool)
      → replay_failed_import settings ext client isoformat id key now db objects
        ≡ (ok (answer, db'), objects')
      → (original : ImportJob) × (find_job id db ≡ some original)
        × (is_failed original.status ≡ true)
        × (resubmit settings ext client isoformat original key
              (load_import_payload ext client original objects)
              (find (λ s. s.id == original.supplier_id) db.suppliers)
              now
              db
              objects
            ≡ (ok (answer, db'), objects'))
  unfolding replay_failed_import
  replay-guards id key now db db' objects objects' answer h = elim (Option-cases (find_job id db)) [
    | inl missing ↦ absurd (ground arith)
    | inr (original, found) ↦ (original, found, ground arith, ground arith)
  ]

  -- A replay that queues a job was of an import that had failed, whose payload could be loaded and
  -- has its recorded checksum; the new job is queued without attempts, has that checksum and names
  -- the failed import, and the failed import stays in the database as it was.
  pub replay_failed_import_lem :
      (id : Uuid) (key : String) (now : Time) (db db' : Db) (objects objects' : O) (job : ImportJob)
      → replay_failed_import settings ext client isoformat id key now db objects
        ≡ (ok ((job, true), db'), objects')
      → (original : ImportJob) × (content : Bytes) × (find_job id db ≡ some original)
        × (is_failed original.status ≡ true)
        × (load_import_payload ext client original objects ≡ ok content)
        × (ext.sha256 content ≡ original.content_sha256)
        × (job.content_sha256 ≡ original.content_sha256)
        × (job.replay_of_job_id ≡ some original.id)
        × (is_queued job.status ≡ true)
        × (job.attempt_count ≡ 0)
        × (find_job id db' ≡ some original)
  replay_failed_import_lem id key now db db' objects objects' job h =
      let (original, found, failed, again) =
        replay-guards id key now db db' objects objects' (job, true) h in
      let (content, s, loaded, submitted) =
        resubmit-parts original key (load_import_payload ext client original objects)
          (find (λ s. s.id == original.supplier_id) db.suppliers) now db db' objects objects'
          (job, true) again in
      let request = replay_request original s content key in
      let (supplier_id, stored, e, e') =
        submit_inventory_import-queues settings client isoformat request now db db' objects objects'
          job submitted in
      (
        original,
        content,
        found,
        failed,
        loaded,
        load_import_payload-sha256 ext client original objects content loaded,
        rw e refl,
        rw e refl,
        rw e refl,
        rw e refl,
        subst (λ d. find_job id d ≡ some original) (sym e')
            (found_after id supplier_id request stored now db original found),
      )
