-- ===== src/Imports/Soundness/Submit.antt =====
-- The submission of an import: a new job keeps the constraints and the invariant.
use supply_chain_integration.Base.{
  suc, ◌≡◌, refl, sym, ◌∙◌, inl, inr, true, some, none, Option-cases, String, [], ◌∷◌, ◌++◌, eq_iff,
  length, find, any, unique, every, unique-append, every-append, any_weaken, any-eq-find,
  every_weaken, every-any, find-append, arith,
}
use supply_chain_integration.Domain.Enums.{is_queued}
use supply_chain_integration.Domain.Errors.{ok}
use supply_chain_integration.Settings.{Settings, InRange}
use supply_chain_integration.Objects.{S3Client, Answer, value, StoredObject, put, put-size}
use supply_chain_integration.Objects.Keys.{build_raw_object_key}
use supply_chain_integration.Store.Rows.Catalog.{Supplier}
use supply_chain_integration.Store.Rows.{Uuid, Time}
use supply_chain_integration.Store.Rows.Imports.{ImportJob}
use supply_chain_integration.Store.Db.{Db}
use supply_chain_integration.Store.Session.{commit_or_conflict}
use supply_chain_integration.Store.Constraints.{
  IsConsistent, constraints_hold, constraints_hold_of_IsConsistent, same_submission,
}
use supply_chain_integration.Imports.Jobs.{
  get_supplier_by_code, has_job_id, find_job, record_import_event, operation_event,
}
use supply_chain_integration.Imports.Queue.{
  submit_inventory_import, Submission, is_submission, find_submission, queued_job, queue_job,
  fits_columns,
}
use supply_chain_integration.Imports.Soundness.{
  beyond, IsSound, same_job_id, older_job, older_owner,
}
use supply_chain_integration.Imports.Soundness.Consistency.{with_imports, with_imports-IsConsistent}

module _ (settings : Settings) (supplier_id : Uuid) (request : Submission) (stored : StoredObject)
    (now : Time) where
  abbrev pub new_job : Db → ImportJob
  new_job db = queued_job settings db.next_id supplier_id request stored now

  abbrev pub submitted_db : Db → Db
  submitted_db db =
      with_imports db (suc (suc (suc (suc db.next_id)))) (db.jobs ++ new_job db ∷ []) db.attempts
        db.job_errors
        (((db.events
              ++ operation_event (suc db.next_id) (new_job db) "FastAPI" "request.validated"
                  "succeeded" now
                ∷ [])
            ++ operation_event (suc (suc db.next_id)) (new_job db) "SeaweedFS" "payload.stored"
                "succeeded" now
              ∷ [])
          ++ operation_event (suc (suc (suc db.next_id))) (new_job db) "PostgreSQL" "job.queued"
              "succeeded" now
            ∷ [])

  -- A job that the unique constraint compares equal is an earlier submission.
  submission_conflict :
      (job : ImportJob) (db : Db)
      → same_submission job (new_job db) ≡ true
      → is_submission supplier_id request job ≡ true
  submission_conflict job db h = elim (Option-cases job.idempotency_key) [
    | inl e ↦ ground arith
    | inr (key, e) ↦
        ground (arith, eq_iff key request.idempotency_key, eq_iff request.idempotency_key key)
  ]

  pub submitted_db-IsConsistent :
      (db : Db)
      → InRange settings
      → find_submission supplier_id request db ≡ none
      → IsConsistent db
      → IsConsistent (submitted_db db)
  unfolding find_submission every
  submitted_db-IsConsistent db range unseen c =
      with_imports-IsConsistent db _ _ _ _ _ c
        (rw unique-append (
          ground (
            arith,
            c.jobs,
            any_weaken (λ j. same_submission j (new_job db)) (is_submission supplier_id request)
                (λ j h. submission_conflict j db h) db.jobs
                (any-eq-find (is_submission supplier_id request) db.jobs ∙ rw unseen refl),
          )))
        (rw (every-append, c.job_values) (ground (arith, range.attempts_low))) c.attempts
        c.attempt_values

  pub submitted_db-IsSound : (db : Db) → InRange settings → IsSound db → IsSound (submitted_db db)
  unfolding every find_job unique any find
  submitted_db-IsSound db range s = record {
    keyed = record {
      keys = rw unique-append (
          ground (
            arith,
            s.keyed.keys,
            every-any (older_job db.next_id) (λ j. same_job_id j (new_job db)) (λ j h. ground arith)
                db.jobs s.keyed.fresh,
          ));
      fresh = rw every-append (
          ground (
            arith,
            every_weaken (older_job db.next_id) (older_job (suc (suc (suc (suc db.next_id)))))
                (λ j h. ground arith) db.jobs s.keyed.fresh,
          ));
      owners =
          every_weaken (older_owner db.next_id) (older_owner (suc (suc (suc (suc db.next_id)))))
            (λ a h. ground arith) db.attempts s.keyed.owners;
    };
    at = λ id j found. elim (Option-cases (find (has_job_id id) db.jobs)) [
      | inr (j', there) ↦
          let same : j' ≡ j =
            ground (arith, find-append (has_job_id id) db.jobs (new_job db ∷ [])) in
          s.at id j (there ∙ rw same refl)
      | inl missing ↦
          let same : new_job db ≡ j =
            ground (arith, find-append (has_job_id id) db.jobs (new_job db ∷ [])) in
          rw (sym same) (record {
            sound = ground (arith, range.attempts_low);
            numbers = record {
              numbered =
                  every-any (older_owner db.next_id) (beyond (new_job db)) (λ a h. ground arith)
                    db.attempts s.keyed.owners;
              current = λ h. ground arith;
            };
          })
    ];
  }

  -- The new job has an id that no row has.
  pub submitted_db-finds :
      (db : Db) → IsSound db → find_job db.next_id (submitted_db db) ≡ some (new_job db)
  unfolding find_job find
  submitted_db-finds db s = ground (
    arith,
    find-append (has_job_id db.next_id) db.jobs (new_job db ∷ []),
    any-eq-find (has_job_id db.next_id) db.jobs,
    every-any (older_job db.next_id) (has_job_id db.next_id) (λ j h. ground arith) db.jobs
        s.keyed.fresh,
  )

module _ {ℓ} {O : Type ℓ} (settings : Settings) (client : S3Client O)
    (isoformat : Time → String) where
  pub queue_job-commits :
      (supplier_id : Uuid) (request : Submission) (stored : StoredObject) (now : Time) (db : Db)
      → fits_columns (new_job settings supplier_id request stored now db) ≡ true
      → constraints_hold (submitted_db settings supplier_id request stored now db) ≡ true
      → queue_job settings client isoformat supplier_id request stored now db
        ≡ ok (
          (new_job settings supplier_id request stored now db, true),
          submitted_db settings supplier_id request stored now db,
        )
  unfolding queue_job record_import_event commit_or_conflict
  queue_job-commits supplier_id request stored now db fits holds = ground arith

  -- The object store takes the payload of this request and reports `stored`.
  abbrev pub put_payload : Submission → Time → O → Answer StoredObject × O
  put_payload request now objects =
      put client
        (build_raw_object_key isoformat request.source_type request.content_sha256 none now)
        request.content objects

  submit_inventory_import-commits :
      (request : Submission) (supplier : Supplier) (stored : StoredObject) (now : Time) (db : Db)
      (objects : O)
      → get_supplier_by_code request.supplier_code db ≡ ok (supplier, db)
      → find_submission supplier.id request db ≡ none
      → (put_payload request now objects).0 ≡ value stored
      → fits_columns (new_job settings supplier.id request stored now db) ≡ true
      → constraints_hold (submitted_db settings supplier.id request stored now db) ≡ true
      → submit_inventory_import settings client isoformat request now db objects ≡ (
        ok (
          (new_job settings supplier.id request stored now db, true),
          submitted_db settings supplier.id request stored now db,
        ),
        (put_payload request now objects).1,
      )
  unfolding submit_inventory_import
  submit_inventory_import-commits request supplier stored now db objects known unseen kept fits
        holds =
      ground (arith, queue_job-commits supplier.id request stored now db fits holds)

  -- In a consistent database whose jobs satisfy the invariant, with settings in their ranges, a
  -- submission of a known supplier under a new key whose payload the object store took, and whose
  -- texts fit their columns, commits a queued job that counts no attempt and has the key and the size of the stored object, and the
  -- database is again consistent and satisfies the invariant.
  pub submit_inventory_import-IsSound :
      (request : Submission) (supplier : Supplier) (stored : StoredObject) (now : Time) (db : Db)
      (objects : O)
      → InRange settings
      → IsConsistent db
      → IsSound db
      → get_supplier_by_code request.supplier_code db ≡ ok (supplier, db)
      → find_submission supplier.id request db ≡ none
      → (put_payload request now objects).0 ≡ value stored
      → fits_columns (new_job settings supplier.id request stored now db) ≡ true
      → (job : ImportJob) × (db' : Db) × (submit_inventory_import settings client isoformat request
            now db objects
          ≡ (ok ((job, true), db'), (put_payload request now objects).1))
        × (find_job job.id db' ≡ some job)
        × (is_queued job.status ≡ true)
        × (job.attempt_count ≡ 0)
        × (job.payload_object_key
            ≡ some (
                build_raw_object_key isoformat request.source_type request.content_sha256 none now))
        × (job.payload_size_bytes ≡ some (length request.content))
        × IsConsistent db'
        × IsSound db'
  submit_inventory_import-IsSound request supplier stored now db objects range c s known unseen kept
        fits =
      let c' =
        submitted_db-IsConsistent settings supplier.id request stored now db range unseen c in
      let (key, size) =
        put-size client
          (build_raw_object_key isoformat request.source_type request.content_sha256 none now)
          request.content objects stored kept in
      (
        new_job settings supplier.id request stored now db,
        submitted_db settings supplier.id request stored now db,
        submit_inventory_import-commits request supplier stored now db objects known unseen kept
            fits
            (constraints_hold_of_IsConsistent
              (submitted_db settings supplier.id request stored now db) c'),
        submitted_db-finds settings supplier.id request stored now db s,
        refl,
        refl,
        rw key refl,
        rw size refl,
        c',
        submitted_db-IsSound settings supplier.id request stored now db range s,
      )
