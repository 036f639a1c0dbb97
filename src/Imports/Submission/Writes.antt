-- ===== src/Imports/Submission/Writes.antt =====
-- What each end of a submission has done to the database.
use supply_chain_integration.Base.{
  Bool, ◌≡◌, refl, sym, ◌∙◌, ◌⊎◌, inl, inr, true, false, Option, some, none, Option-cases, String,
  [], ◌∷◌, str_eq, eq_iff, find, find-append, if◌then◌else◌, arith,
}
use supply_chain_integration.Domain.Enums.{same_source_refl}
use supply_chain_integration.Domain.Errors.{ok, err, resource_conflict, resource_not_found}
use supply_chain_integration.Settings.{Settings}
use supply_chain_integration.Objects.{
  S3Client, Answer, value, object_not_found, storage_error, StoredObject, put,
}
use supply_chain_integration.Objects.Keys.{build_raw_object_key}
use supply_chain_integration.Store.Rows.{Uuid, Time}
use supply_chain_integration.Store.Rows.Catalog.{Supplier}
use supply_chain_integration.Store.Rows.Imports.{ImportJob}
use supply_chain_integration.Store.Db.{Db}
use supply_chain_integration.Store.Session.{commit_or_conflict}
use supply_chain_integration.Store.Constraints.{constraints_hold}
use supply_chain_integration.Imports.Jobs.{get_supplier_by_code, record_import_event}
use supply_chain_integration.Imports.Queue.{
  submit_inventory_import, submit_for, after_put, Submission, is_submission, find_submission,
  queue_job,
}
use supply_chain_integration.Imports.Soundness.Submit.{new_job, submitted_db}

pub get_supplier-cases :
    (code : String) (db : Db)
    → (get_supplier_by_code code db ≡ err resource_not_found)
      ⊎ ((supplier : Supplier) × (get_supplier_by_code code db ≡ ok (supplier, db)))
unfolding get_supplier_by_code
get_supplier-cases code db = elim (Option-cases (find (λ s. str_eq s.code code) db.suppliers)) [
  | inl missing ↦ inl (ground arith)
  | inr (supplier, there) ↦ inr (supplier, ground arith)
]

pub same_suppliers :
    (code : String) (db db' : Db) (supplier : Supplier)
    → db'.suppliers ≡ db.suppliers
    → get_supplier_by_code code db ≡ ok (supplier, db)
    → get_supplier_by_code code db' ≡ ok (supplier, db')
unfolding get_supplier_by_code
same_suppliers code db db' supplier same known = ground arith

module _ {ℓ} {O : Type ℓ} (settings : Settings) (client : S3Client O)
    (isoformat : Time → String) where
  -- What a normal end of the queueing has written.
  pub queue_job-writes :
      (supplier_id : Uuid) (request : Submission) (stored : StoredObject) (now : Time)
      (answer : ImportJob × Bool) (db db' : Db)
      → queue_job settings client isoformat supplier_id request stored now db ≡ ok (answer, db')
      → (db' ≡ submitted_db settings supplier_id request stored now db)
        × (constraints_hold db' ≡ true)
  unfolding queue_job record_import_event commit_or_conflict
  queue_job-writes supplier_id request stored now answer db db' h = ground arith

  -- What a submission that queued a job has done.
  pub queue_job-inverse :
      (supplier_id : Uuid) (request : Submission) (stored : StoredObject) (now : Time) (db db' : Db)
      (job : ImportJob)
      → queue_job settings client isoformat supplier_id request stored now db
        ≡ ok ((job, true), db')
      → (job ≡ new_job settings supplier_id request stored now db)
        × (db' ≡ submitted_db settings supplier_id request stored now db)
  unfolding queue_job record_import_event commit_or_conflict
  queue_job-inverse supplier_id request stored now db db' job h = ground arith

  after_put-inverse :
      (answer : Answer StoredObject) (supplier_id : Uuid) (request : Submission) (now : Time)
      (db db' : Db) (job : ImportJob)
      → after_put settings client isoformat answer supplier_id request now db
        ≡ ok ((job, true), db')
      → (stored : StoredObject) × (queue_job settings client isoformat supplier_id request stored
            now db
          ≡ ok ((job, true), db'))
  after_put-inverse (value stored) supplier_id request now db db' job h = (stored, h)
  after_put-inverse object_not_found supplier_id request now db db' job h = ground arith
  after_put-inverse storage_error supplier_id request now db db' job h = ground arith

  pub submit_for-inverse :
      (existing : Option ImportJob) (supplier_id : Uuid) (request : Submission) (now : Time)
      (db db' : Db) (objects objects' : O) (job : ImportJob)
      → submit_for settings client isoformat supplier_id request existing now db objects
        ≡ (ok ((job, true), db'), objects')
      → (existing ≡ none)
        × (stored : StoredObject) × (queue_job settings client isoformat supplier_id request stored
              now db
            ≡ ok ((job, true), db'))
  unfolding submit_for
  submit_for-inverse (some e) supplier_id request now db db' objects objects' job h = ground arith
  submit_for-inverse none supplier_id request now db db' objects objects' job h =
      let (stored, done) =
        after_put-inverse
          (put client
            (build_raw_object_key isoformat request.source_type request.content_sha256 none now)
            request.content objects).0
          supplier_id request now db db' job (ground arith) in
      (refl, stored, done)

  -- The search for an equal request finds the job that was added.
  pub find_submission_again :
      (supplier_id : Uuid) (request request' : Submission) (stored : StoredObject) (now : Time)
      (db : Db)
      → request'.source_type ≡ request.source_type
      → request'.idempotency_key ≡ request.idempotency_key
      → find_submission supplier_id request db ≡ none
      → find_submission supplier_id request'
          (submitted_db settings supplier_id request stored now db)
        ≡ some (new_job settings supplier_id request stored now db)
  unfolding find_submission find
  find_submission_again supplier_id request request' stored now db source key unseen =
      rw (source, key)
        (ground (
          arith,
          find-append (is_submission supplier_id request) db.jobs
              (new_job settings supplier_id request stored now db ∷ []),
          eq_iff request.idempotency_key request.idempotency_key,
          same_source_refl request.source_type,
        ))

  pub submit_for_again :
      (supplier_id : Uuid) (request' : Submission) (now' : Time) (db' : Db) (objects : O)
      (job : ImportJob) (content_sha256 : String)
      → find_submission supplier_id request' db' ≡ some job
      → job.content_sha256 ≡ content_sha256
      → submit_for settings client isoformat supplier_id request'
          (find_submission supplier_id request' db')
          now'
          db'
          objects
        ≡ (
          (if str_eq content_sha256 request'.content_sha256
              then ok ((job, false), db')
              else err resource_conflict),
          objects,
        )
  unfolding submit_for
  submit_for_again supplier_id request' now' db' objects job content_sha256 there same =
      ground arith

  pub submit_inventory_import-unknown :
      (request : Submission) (now : Time) (db : Db) (objects : O)
      → get_supplier_by_code request.supplier_code db ≡ err resource_not_found
      → submit_inventory_import settings client isoformat request now db objects
        ≡ (err resource_not_found, objects)
  unfolding submit_inventory_import
  submit_inventory_import-unknown request now db objects unknown = ground arith

  pub submit_inventory_import-known :
      (request : Submission) (now : Time) (db : Db) (objects : O) (supplier : Supplier)
      → get_supplier_by_code request.supplier_code db ≡ ok (supplier, db)
      → submit_inventory_import settings client isoformat request now db objects
        ≡ submit_for settings client isoformat supplier.id request
            (find_submission supplier.id request db)
            now
            db
            objects
  unfolding submit_inventory_import
  submit_inventory_import-known request now db objects supplier known = ground arith

  -- The writes of a submission that queued a job.
  pub submit_inventory_import-queues :
      (request : Submission) (now : Time) (db db' : Db) (objects objects' : O) (job : ImportJob)
      → submit_inventory_import settings client isoformat request now db objects
        ≡ (ok ((job, true), db'), objects')
      → (supplier_id : Uuid) × (stored : StoredObject) × (job
          ≡ new_job settings supplier_id request stored now db)
        × (db' ≡ submitted_db settings supplier_id request stored now db)
  submit_inventory_import-queues request now db db' objects objects' job h =
      elim (get_supplier-cases request.supplier_code db) [
        | inl unknown ↦
            absurd (cc (h, submit_inventory_import-unknown request now db objects unknown))
        | inr (supplier, known) ↦
            let (unseen, stored, done) =
              submit_for-inverse (find_submission supplier.id request db) supplier.id request now db
                db' objects objects' job
                (sym (submit_inventory_import-known request now db objects supplier known) ∙ h) in
            let (e, e') = queue_job-inverse supplier.id request stored now db db' job done in
            (supplier.id, stored, e, e')
      ]
