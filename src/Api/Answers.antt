-- ===== src/Api/Answers.antt =====
-- What a client of the import routes may rely on.
use supply_chain_integration.Base.{
  ◌≡◌, refl, sym, subst, ap, Bool, true, false, ◌&&◌, Bool-cases, ◌⊎◌, inl, inr, Option, some, none,
  String, str_eq, eq_iff, is_text, All-find, find-eq-some, arith,
}
use supply_chain_integration.Domain.Enums.{same_source, same_source_refl}
use supply_chain_integration.Domain.Errors.{
  Exn, Result, ok, err, other_error, resource_not_found, resource_conflict, resource_unavailable,
}
use supply_chain_integration.Settings.{Settings, InRange}
use supply_chain_integration.Objects.{
  S3Client, Answer, value, object_not_found, storage_error, StoredObject, put,
}
use supply_chain_integration.Objects.Keys.{build_raw_object_key}
use supply_chain_integration.Store.Rows.{Uuid, Time}
use supply_chain_integration.Store.Rows.Imports.{ImportJob}
use supply_chain_integration.Store.Db.{Db}
use supply_chain_integration.Store.Constraints.{constraints_hold_of_IsConsistent}
use supply_chain_integration.Imports.Jobs.{find_job, record_import_event}
use supply_chain_integration.Imports.Queue.{
  queue_job, fits_columns, Submission, is_submission, find_submission, after_put, submit_for,
  submit_inventory_import,
}
use supply_chain_integration.Imports.Soundness.Submit.{
  new_job, submitted_db, submitted_db-IsConsistent, submitted_db-IsSound, submitted_db-finds,
  queue_job-commits,
}
use supply_chain_integration.Imports.Soundness.Stale.{IsIn, own-IsIn}
use supply_chain_integration.Imports.Steps.Preservation.{IsValid}
use supply_chain_integration.Imports.Submission.Writes.{
  get_supplier-cases, submit_inventory_import-known, submit_inventory_import-unknown,
}

-- The job carries what the request asked for.
abbrev pub is_job_of : Submission → ImportJob → Bool
is_job_of request job =
    same_source job.source_type request.source_type
    && is_text job.idempotency_key request.idempotency_key
    && str_eq job.content_sha256 request.content_sha256

-- A submission was refused, or the job that it returned is the one of the request and is found
-- under its id in a database that is again consistent and satisfies the invariant.
abbrev pub Submits : Submission → Result ((ImportJob × Bool) × Db) → Type 0
Submits request result =
    ((e : Exn) × (result ≡ err e))
    ⊎ ((job : ImportJob) × (created : Bool) × (db' : Db) × (result ≡ ok ((job, created), db'))
        × (find_job job.id db' ≡ some job)
        × (is_job_of request job ≡ true)
        × IsValid db')

earlier-IsIn :
    (supplier_id : Uuid) (request : Submission) (job : ImportJob) (db : Db)
    → IsValid db
    → find_submission supplier_id request db ≡ some job
    → find_job job.id db ≡ some job
unfolding find_submission find_job
earlier-IsIn supplier_id request job db v there =
    All-find (IsIn db.jobs) (is_submission supplier_id request) db.jobs job
      (own-IsIn db.jobs v.1.keyed.keys) there

earlier-is_job_of :
    (supplier_id : Uuid) (request : Submission) (job : ImportJob) (db : Db)
    → find_submission supplier_id request db ≡ some job
    → str_eq job.content_sha256 request.content_sha256 ≡ true
    → is_job_of request job ≡ true
unfolding find_submission
earlier-is_job_of supplier_id request job db there same =
    ground (arith, find-eq-some (is_submission supplier_id request) db.jobs job there)

module _ {ℓ} {O : Type ℓ} (settings : Settings) (client : S3Client O) (isoformat : Time → String)
    (range : InRange settings) (request : Submission) (now : Time) where
  queue_job-refuses :
      (supplier_id : Uuid) (stored : StoredObject) (db : Db)
      → fits_columns (new_job settings supplier_id request stored now db) ≡ false
      → queue_job settings client isoformat supplier_id request stored now db ≡ err other_error
  unfolding queue_job record_import_event
  queue_job-refuses supplier_id stored db long = ground arith

  put-Submits :
      (stored : Answer StoredObject) (supplier_id : Uuid) (db : Db)
      → IsValid db
      → find_submission supplier_id request db ≡ none
      → Submits request (after_put settings client isoformat stored supplier_id request now db)
  put-Submits object_not_found supplier_id db v unseen = inl (resource_unavailable, refl)
  put-Submits storage_error supplier_id db v unseen = inl (resource_unavailable, refl)
  put-Submits (value stored) supplier_id db v unseen =
      elim (Bool-cases (fits_columns (new_job settings supplier_id request stored now db))) [
        | inr long ↦ inl (other_error, queue_job-refuses supplier_id stored db long)
        | inl fits ↦
            let c' =
              submitted_db-IsConsistent settings supplier_id request stored now db range unseen
                v.0 in
            inr (
              new_job settings supplier_id request stored now db,
              true,
              submitted_db settings supplier_id request stored now db,
              queue_job-commits settings client isoformat supplier_id request stored now db fits
                  (constraints_hold_of_IsConsistent _ c'),
              submitted_db-finds settings supplier_id request stored now db v.1,
              ground (
                arith,
                eq_iff request.idempotency_key request.idempotency_key,
                eq_iff request.content_sha256 request.content_sha256,
                same_source_refl request.source_type,
              ),
              (c', submitted_db-IsSound settings supplier_id request stored now db range v.1),
            )
      ]

  submit_for-Submits :
      (existing : Option ImportJob) (supplier_id : Uuid) (db : Db) (objects : O)
      → IsValid db
      → find_submission supplier_id request db ≡ existing
      → Submits request
          (submit_for settings client isoformat supplier_id request existing now db objects).0
  unfolding submit_for
  submit_for-Submits none supplier_id db objects v unseen =
      put-Submits
        (put client
          (build_raw_object_key isoformat request.source_type request.content_sha256 none now)
          request.content objects).0
        supplier_id db v unseen
  submit_for-Submits (some job) supplier_id db objects v there =
      elim (Bool-cases (str_eq job.content_sha256 request.content_sha256)) [
        | inr other ↦ inl (resource_conflict, rw other refl)
        | inl same ↦ inr (
          job,
          false,
          db,
          rw same refl,
          earlier-IsIn supplier_id request job db v there,
          earlier-is_job_of supplier_id request job db there same,
          v,
        )
      ]

  pub submit_inventory_import-Submits :
      (db : Db) (objects : O)
      → IsValid db
      → Submits request (submit_inventory_import settings client isoformat request now db objects).0
  submit_inventory_import-Submits db objects v =
      elim (get_supplier-cases request.supplier_code db) [
        | inl unknown ↦ inl (
          resource_not_found,
          ap (λ end. end.0)
              (submit_inventory_import-unknown settings client isoformat request now db objects
                unknown),
        )
        | inr (supplier, known) ↦
            subst (λ end. Submits request end.0)
              (sym (
                submit_inventory_import-known settings client isoformat request now db objects
                  supplier known))
              (submit_for-Submits (find_submission supplier.id request db) supplier.id db objects v
                refl)
      ]
