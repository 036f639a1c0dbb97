-- ===== src/Imports/Steps/Preservation.antt =====
-- Every step keeps the constraints of the database and the invariant of the jobs.
use supply_chain_integration.Base.{
  String, Option, some, none, Option-cases, inl, inr, Bool, List, ◌≡◌, sym, subst, ◌∙◌, arith,
}
use supply_chain_integration.Domain.Errors.{Exn, Result, ok, err, resource_not_found}
use supply_chain_integration.Settings.{Settings, InRange}
use supply_chain_integration.Objects.{
  S3Client, Answer, value, object_not_found, storage_error, StoredObject, put,
}
use supply_chain_integration.Objects.Keys.{build_raw_object_key}
use supply_chain_integration.Store.Rows.{Uuid, Time}
use supply_chain_integration.Store.Rows.Catalog.{Supplier}
use supply_chain_integration.Store.Rows.Imports.{ImportJob}
use supply_chain_integration.Store.Db.{Db}
use supply_chain_integration.Store.Session.{commit_or_conflict}
use supply_chain_integration.Store.Constraints.{IsConsistent, constraints_hold-IsConsistent}
use supply_chain_integration.Imports.Jobs.{find_job, get_import_job}
use supply_chain_integration.Services.Catalog.{SupplierCreate, create_supplier}
use supply_chain_integration.Imports.Queue.{
  Submission, find_submission, queue_job, after_put, submit_for, submit_inventory_import,
  mark_job_dispatched,
}
use supply_chain_integration.Imports.Payload.{Externals}
use supply_chain_integration.Imports.Failure.Record.{FailureDisposition, record_import_failure}
use supply_chain_integration.Imports.Submission.Writes.{
  get_supplier-cases, queue_job-writes, submit_inventory_import-known,
  submit_inventory_import-unknown,
}
use supply_chain_integration.Imports.Recovery.{recover_stale_imports}
use supply_chain_integration.Imports.Soundness.{IsSound}
use supply_chain_integration.Imports.Soundness.Commits.{record_import_failure-IsSound}
use supply_chain_integration.Imports.Soundness.Submit.{submitted_db-IsSound}
use supply_chain_integration.Imports.Soundness.Dispatch.{mark_job_dispatched-IsSound}
use supply_chain_integration.Imports.Soundness.Stale.{recover_stale_imports-IsSound}
use supply_chain_integration.Imports.Soundness.Keeps.{IsFramed-IsSound}

abbrev pub IsValid : Db → Type 0
IsValid db = IsConsistent db × IsSound db

-- Two runs of one action end in the same database.
pub same_end {ℓ} :
    {A : Type ℓ} (r : Result (A × Db)) (a b : A) (db db' : Db)
    → r ≡ ok (a, db)
    → r ≡ ok (b, db')
    → IsValid db
    → IsValid db'
same_end r a b db db' e e' v = let same : db ≡ db' = cc in subst IsValid same v

pub register-IsValid :
    (request : SupplierCreate)
    → (db db' : Db) (s : Supplier) → create_supplier request db ≡ ok (s, db')
    → IsValid db
    → IsValid db'
unfolding create_supplier commit_or_conflict
register-IsValid request db db' s h v =
    (constraints_hold-IsConsistent db' (ground arith), IsFramed-IsSound db db' (ground arith) v.1)

pub recover-IsValid :
    (now : Time) (ids : List Uuid) (db db' : Db)
    → recover_stale_imports now db ≡ ok (ids, db')
    → IsValid db
    → IsValid db'
recover-IsValid now ids db db' h v =
    let (db1, returned, done, others, c, s) = recover_stale_imports-IsSound now db v.0 v.1 in
    same_end (recover_stale_imports now db) _ ids db1 db' returned h (c, s)

no_such_job :
    (id : Uuid) (now : Time) (db : Db)
    → find_job id db ≡ none
    → mark_job_dispatched id now db ≡ err resource_not_found
unfolding mark_job_dispatched get_import_job
no_such_job id now db missing = ground arith

pub dispatch-IsValid :
    (id : Uuid) (now : Time) (job : ImportJob) (db db' : Db)
    → mark_job_dispatched id now db ≡ ok (job, db')
    → IsValid db
    → IsValid db'
dispatch-IsValid id now job db db' h v = elim (Option-cases (find_job id db)) [
  | inl missing ↦ absurd (cc (h, no_such_job id now db missing))
  | inr (j, found) ↦
      let (db1, returned, there, others, c, s) =
        mark_job_dispatched-IsSound id j now db v.0 v.1 found in
      same_end (mark_job_dispatched id now db) _ job db1 db' returned h (c, s)
]

module _ {ℓ} {O : Type ℓ} (settings : Settings) (ext : Externals) (client : S3Client O)
    (isoformat : Time → String) (describe : Exn → String) where
  fails_nowhere :
      (w : String) (t : Option String) (id : Uuid) (error : Exn) (now : Time) (db : Db)
      → find_job id db ≡ none
      → record_import_failure settings describe w t id error now db ≡ err resource_not_found
  unfolding record_import_failure
  fails_nowhere w t id error now db missing = ground arith

  pub fail-IsValid :
      (w : String) (t : Option String) (id : Uuid) (error : Exn) (now : Time)
      (d : FailureDisposition) (db db' : Db)
      → record_import_failure settings describe w t id error now db ≡ ok (d, db')
      → IsValid db
      → IsValid db'
  fail-IsValid w t id error now d db db' h v = elim (Option-cases (find_job id db)) [
    | inl missing ↦ absurd (cc (h, fails_nowhere w t id error now db missing))
    | inr (j, found) ↦
        let (db1, returned, there, c, s) =
          record_import_failure-IsSound settings describe w t id j error now db v.0 v.1 found in
        same_end (record_import_failure settings describe w t id error now db) _ d db1 db' returned
          h (c, s)
  ]

  queue-IsValid :
      (supplier_id : Uuid) (request : Submission) (stored : StoredObject) (now : Time)
      (answer : ImportJob × Bool) (db db' : Db)
      → InRange settings
      → queue_job settings client isoformat supplier_id request stored now db ≡ ok (answer, db')
      → IsValid db
      → IsValid db'
  queue-IsValid supplier_id request stored now answer db db' range h v =
      let (e, holds) =
        queue_job-writes settings client isoformat supplier_id request stored now answer db db' h in
      (
        constraints_hold-IsConsistent db' holds,
        subst IsSound (sym e)
            (submitted_db-IsSound settings supplier_id request stored now db range v.1),
      )

  put-IsValid :
      (stored : Answer StoredObject) (supplier_id : Uuid) (request : Submission) (now : Time)
      (answer : ImportJob × Bool) (db db' : Db)
      → InRange settings
      → after_put settings client isoformat stored supplier_id request now db ≡ ok (answer, db')
      → IsValid db
      → IsValid db'
  put-IsValid (value stored) supplier_id request now answer db db' range h v =
      queue-IsValid supplier_id request stored now answer db db' range h v
  put-IsValid object_not_found supplier_id request now answer db db' range h v = ground arith
  put-IsValid storage_error supplier_id request now answer db db' range h v = ground arith

  submit_for-IsValid :
      (existing : Option ImportJob) (supplier_id : Uuid) (request : Submission) (now : Time)
      (answer : ImportJob × Bool) (objects objects' : O) (db db' : Db)
      → InRange settings
      → submit_for settings client isoformat supplier_id request existing now db objects
        ≡ (ok (answer, db'), objects')
      → IsValid db
      → IsValid db'
  unfolding submit_for
  submit_for-IsValid (some e) supplier_id request now answer objects objects' db db' range h v =
      let same : db ≡ db' = ground arith in subst IsValid same v
  submit_for-IsValid none supplier_id request now answer objects objects' db db' range h v =
      put-IsValid
        (put client
          (build_raw_object_key isoformat request.source_type request.content_sha256 none now)
          request.content objects).0
        supplier_id request now answer db db' range (ground arith) v

  pub submit-IsValid :
      (request : Submission) (now : Time) (answer : ImportJob × Bool) (objects objects' : O)
      (db db' : Db)
      → InRange settings
      → submit_inventory_import settings client isoformat request now db objects
        ≡ (ok (answer, db'), objects')
      → IsValid db
      → IsValid db'
  submit-IsValid request now answer objects objects' db db' range h v =
      elim (get_supplier-cases request.supplier_code db) [
        | inl unknown ↦ ground (
          arith,
          submit_inventory_import-unknown settings client isoformat request now db objects unknown,
        )
        | inr (supplier, known) ↦
            submit_for-IsValid (find_submission supplier.id request db) supplier.id request now
              answer objects objects' db db' range
              (sym (
                  submit_inventory_import-known settings client isoformat request now db objects
                    supplier known)
                ∙ h)
              v
      ]
