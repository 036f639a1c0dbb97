-- ===== src/Imports/Submission.antt =====
-- Submitting the same request again.
pub mod Writes
use supply_chain_integration.Base.{
  Bool, ◌≡◌, refl, sym, ◌∙◌, ◌⊎◌, inl, inr, true, false, Option, some, none, Option-cases, String,
  [], ◌∷◌, str_eq, eq_iff, find, find-append, if◌then◌else◌, arith,
}
use supply_chain_integration.Domain.Enums.{same_source_refl}
use supply_chain_integration.Domain.Errors.{ok, err, resource_conflict, resource_not_found}
use supply_chain_integration.Settings.{Settings}
use supply_chain_integration.Objects.{
  S3Client, Answer, value, object_not_found, storage_error, StoredObject, put,
}
use supply_chain_integration.Objects.Keys.{build_raw_object_key}
use supply_chain_integration.Store.Rows.{Uuid, Time}
use supply_chain_integration.Store.Rows.Catalog.{Supplier}
use supply_chain_integration.Store.Rows.Imports.{ImportJob}
use supply_chain_integration.Store.Db.{Db}
use supply_chain_integration.Store.Session.{commit_or_conflict}
use supply_chain_integration.Store.Constraints.{constraints_hold}
use supply_chain_integration.Imports.Jobs.{get_supplier_by_code, record_import_event}
use supply_chain_integration.Imports.Queue.{
  submit_inventory_import, submit_for, after_put, Submission, is_submission, find_submission,
  queue_job,
}
use supply_chain_integration.Imports.Soundness.Submit.{new_job, submitted_db}
use supply_chain_integration.Imports.Submission.Writes.{
  get_supplier-cases, same_suppliers, queue_job-inverse, submit_for-inverse, find_submission_again,
  submit_for_again, submit_inventory_import-unknown, submit_inventory_import-known,
}

module _ {ℓ} {O : Type ℓ} (settings : Settings) (client : S3Client O)
    (isoformat : Time → String) where
  -- A submission that queued a job knew the supplier, and whoever asks again finds that job.
  found_again :
      (request request' : Submission) (now : Time) (db db' : Db) (objects objects' : O)
      (job : ImportJob)
      → submit_inventory_import settings client isoformat request now db objects
        ≡ (ok ((job, true), db'), objects')
      → request'.supplier_code ≡ request.supplier_code
      → request'.source_type ≡ request.source_type
      → request'.idempotency_key ≡ request.idempotency_key
      → (supplier : Supplier) × (get_supplier_by_code request'.supplier_code db'
          ≡ ok (supplier, db'))
        × (find_submission supplier.id request' db' ≡ some job)
        × (job.content_sha256 ≡ request.content_sha256)
  found_again request request' now db db' objects objects' job h code source key =
      elim (get_supplier-cases request.supplier_code db) [
        | inl unknown ↦ ground (
          arith,
          submit_inventory_import-unknown settings client isoformat request now db objects unknown,
        )
        | inr (supplier, known) ↦
            let (unseen, stored, done) =
              submit_for-inverse settings client isoformat (find_submission supplier.id request db)
                supplier.id request now db db' objects objects' job
                (sym (
                    submit_inventory_import-known settings client isoformat request now db objects
                      supplier known)
                  ∙ h) in
            let (e, e') =
              queue_job-inverse settings client isoformat supplier.id request stored now db db' job
                done in
            (
              supplier,
              rw code (rw e' (same_suppliers request.supplier_code db _ supplier refl known)),
              rw e' (
                  rw e (
                    find_submission_again settings client isoformat supplier.id request request'
                      stored now db source key unseen)),
              rw e refl,
            )
      ]

  -- After a submission that queued a job, a submission of the same supplier code, source type and
  -- idempotency key, at any time and with any object store, writes nothing: it returns that job if
  -- the checksum is the same, and is a conflict if it is not.
  pub submit_inventory_import-twice :
      (request request' : Submission) (now now' : Time) (db db' : Db) (objects objects' later : O)
      (job : ImportJob)
      → submit_inventory_import settings client isoformat request now db objects
        ≡ (ok ((job, true), db'), objects')
      → request'.supplier_code ≡ request.supplier_code
      → request'.source_type ≡ request.source_type
      → request'.idempotency_key ≡ request.idempotency_key
      → submit_inventory_import settings client isoformat request' now' db' later ≡ (
        (if str_eq request.content_sha256 request'.content_sha256
            then ok ((job, false), db')
            else err resource_conflict),
        later,
      )
  submit_inventory_import-twice request request' now now' db db' objects objects' later job h code
        source key =
      let (supplier, known, there, same) =
        found_again request request' now db db' objects objects' job h code source key in
      submit_inventory_import-known settings client isoformat request' now' db' later supplier known
      ∙ submit_for_again settings client isoformat supplier.id request' now' db' later job
          request.content_sha256 there same
