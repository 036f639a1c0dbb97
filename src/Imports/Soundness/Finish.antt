-- ===== src/Imports/Soundness/Finish.antt =====
-- The second transaction of the execution of a job, as a whole.
use supply_chain_integration.Base.{
  ℕ, ◌≡◌, refl, subst, true, some, inl, inr, Option-cases, List, find, update, any-update,
  any-eq-find, find-update_self, ◌==◌, arith,
}
use supply_chain_integration.Domain.Errors.{Result, ok, err, other_error}
use supply_chain_integration.Objects.{S3Client}
use supply_chain_integration.Partners.Canonical.{InventoryAdapterResult}
use supply_chain_integration.Store.Rows.{Uuid, Time}
use supply_chain_integration.Store.Rows.Catalog.{Supplier}
use supply_chain_integration.Store.Rows.Imports.{ImportJob}
use supply_chain_integration.Store.Db.{Db}
use supply_chain_integration.Store.Session.{Tx, lift, or_raise, flush, ◌>>=◌}
use supply_chain_integration.Store.Constraints.{IsConsistent}
use supply_chain_integration.Imports.Jobs.{
  has_job_id, find_job, set_job, set_attempt, get_import_job, get_current_attempt,
  record_import_event,
}
use supply_chain_integration.Imports.Payload.{Externals, adapt_retained_payload}
use supply_chain_integration.Imports.Totals.{apply_inventory_result}
use supply_chain_integration.Imports.Execute.{completed_job, finish_job, complete_job, process_job}
use supply_chain_integration.Imports.Soundness.{has_completed, IsSound}
use supply_chain_integration.Imports.Soundness.Frames.{Frames, both_return}
use supply_chain_integration.Imports.Soundness.Updates.{find_job-id}
use supply_chain_integration.Imports.Soundness.Keeps.{Keeps, Keeps-bind, Frames-Keeps}
use supply_chain_integration.Imports.Soundness.Complete.{
  apply_inventory_result-Keeps, event-Keeps, finish_job-Keeps, finish_job-IsConsistent,
  get_import_job-Frames,
}

-- What holds whenever an action ends normally.
abbrev Ensures {ℓ κ} : {A : Type ℓ} → (A → Db → Type κ) → Tx A → Type (ℓ ⊔ κ)
Ensures {A = A} Q m = (db db' : Db) (a : A) → m db ≡ ok (a, db') → Q a db'

Ensures-bind {ℓ κ μ} :
    {A : Type ℓ} {B : Type κ} (Q : B → Db → Type μ) (m : Tx A) (k : A → Tx B)
    → ((a : A) → Ensures Q (k a))
    → Ensures Q (m >>= k)
Ensures-bind Q m k g db db' b h =
    let (a, mid, done, rest) = both_return (m db) k db db' b h in g a mid db' b rest

-- The same, where the rest depends on what the first action did.
Ensures-after {ℓ κ μ} :
    {A : Type ℓ} {B : Type κ} (Q : B → Db → Type μ) (m : Tx A) (k : A → Tx B)
    → ((a : A) (db mid : Db) → m db ≡ ok (a, mid) → Ensures Q (k a))
    → Ensures Q (m >>= k)
Ensures-after Q m k g db db' b h =
    let (a, mid, done, rest) = both_return (m db) k db db' b h in g a db mid done mid db' b rest

-- A job that has completed and that the id finds, in a consistent database.
abbrev pub IsFinished : Uuid → ImportJob → Db → Type 0
IsFinished id job db =
    (find_job id db ≡ some job) × (has_completed job.status ≡ true) × IsConsistent db

found_in :
    (id : Uuid) (db db' : Db) (job : ImportJob) (f : ImportJob → ImportJob)
    → db'.jobs ≡ update (has_job_id id) f db.jobs
    → find_job id db' ≡ some job
    → find (has_job_id id) (update (has_job_id id) f db.jobs) ≡ some job
unfolding find_job
found_in id db db' job f changed there = rw changed at there

module _ {ℓ} {O : Type ℓ} (ext : Externals) (client : S3Client O) (done : Time) where
  finish_job-jobs :
      (job job' : ImportJob) (rejected : ℕ) (db db' : Db)
      → finish_job ext client done job rejected db ≡ ok (job', db')
      → (find_job job.id db' ≡ some job')
        × (db'.jobs ≡ update (has_job_id job.id) (completed_job rejected done) db.jobs)
  unfolding finish_job flush get_import_job get_current_attempt record_import_event set_job
      set_attempt
  finish_job-jobs job job' rejected db db' h = ground arith

  -- Completing the job that is found makes it one that has ended.
  completed-has_completed :
      (id : Uuid) (rejected : ℕ) (jobs : List ImportJob) (job' : ImportJob)
      → find (has_job_id id) (update (has_job_id id) (completed_job rejected done) jobs) ≡ some job'
      → has_completed job'.status ≡ true
  completed-has_completed id rejected jobs job' there =
      elim (Option-cases (find (has_job_id id) jobs)) [
        | inl missing ↦ ground (
          arith,
          any-update (has_job_id id) (completed_job rejected done) (has_job_id id) (λ x. refl) jobs,
          any-eq-find (has_job_id id) jobs,
          any-eq-find (has_job_id id) (update (has_job_id id) (completed_job rejected done) jobs),
        )
        | inr (x, found) ↦ ground (
          arith,
          find-update_self (has_job_id id) (completed_job rejected done) (λ y. refl) jobs x found,
        )
      ]

  finish_job-IsFinished :
      (job : ImportJob) (rejected : ℕ)
      → Ensures (IsFinished job.id) (finish_job ext client done job rejected)
  finish_job-IsFinished job rejected db db' job' h =
      let (there, changed) = finish_job-jobs job job' rejected db db' h in
      (
        there,
        completed-has_completed job.id rejected db.jobs job'
            (found_in job.id db db' job' (completed_job rejected done) changed there),
        finish_job-IsConsistent ext client done job job' rejected db db' h,
      )

  supplier_of : ImportJob → Tx Supplier
  supplier_of job db = or_raise (find (λ s. s.id == job.supplier_id) db.suppliers) other_error db

  supplier_of-Frames : (job : ImportJob) → Frames (supplier_of job)
  unfolding supplier_of
  supplier_of-Frames job db db' a h = ground arith

  complete_job-Keeps :
      (job : ImportJob) (result : InventoryAdapterResult)
      → Keeps (complete_job ext client done job result)
  unfolding complete_job supplier_of
  complete_job-Keeps job result =
      Keeps-bind (record_import_event job "SeaweedFS" "payload.verified" "succeeded" done) _
        (event-Keeps ext client done job "SeaweedFS" "payload.verified")
        (λ r1.
          Keeps-bind (record_import_event job "Adapter" "payload.transformed" "succeeded" done) _
            (event-Keeps ext client done job "Adapter" "payload.transformed")
            (λ r2.
              Keeps-bind (supplier_of job) _
                (Frames-Keeps (supplier_of job) (supplier_of-Frames job))
                (λ supplier.
                  Keeps-bind (apply_inventory_result job supplier.id result done) _
                    (apply_inventory_result-Keeps job supplier.id result done)
                    (λ counts. finish_job-Keeps ext client done job counts.1))))

  complete_job-IsFinished :
      (job : ImportJob) (result : InventoryAdapterResult)
      → Ensures (IsFinished job.id) (complete_job ext client done job result)
  unfolding complete_job supplier_of
  complete_job-IsFinished job result =
      Ensures-bind (IsFinished job.id)
        (record_import_event job "SeaweedFS" "payload.verified" "succeeded" done) _
        (λ r1.
          Ensures-bind (IsFinished job.id)
            (record_import_event job "Adapter" "payload.transformed" "succeeded" done) _
            (λ r2. Ensures-bind (IsFinished job.id) (supplier_of job) _ (λ supplier.
              Ensures-bind (IsFinished job.id) (apply_inventory_result job supplier.id result done)
                _ (λ counts. finish_job-IsFinished job counts.1))))

  lift-Frames : {A : Type 0} (r : Result A) → Frames (lift r)
  lift-Frames (ok a) db db' b h = ground arith
  lift-Frames (err e) db db' b h = ground arith

  abbrev process_found : ImportJob → O → Tx ImportJob
  process_found job objects =
      lift (adapt_retained_payload ext client job objects) >>= complete_job ext client done job

  get_import_job-id :
      (id : Uuid) (job : ImportJob) (db mid : Db)
      → get_import_job id db ≡ ok (job, mid)
      → job.id ≡ id
  unfolding get_import_job
  get_import_job-id id job db mid h = elim (Option-cases (find_job id db)) [
    | inl missing ↦ ground arith
    | inr (x, found) ↦ ground (arith, find_job-id id db x found)
  ]

  -- Whenever the second transaction of an execution ends normally on a database whose jobs satisfy
  -- the invariant, the job that it returns has completed and is the one that the id finds in the
  -- database, and the database is consistent and satisfies the invariant.
  pub process_job-IsSound :
      (id : Uuid) (objects : O) (db db' : Db) (job : ImportJob)
      → IsSound db
      → process_job ext client done id objects db ≡ ok (job, db')
      → (find_job id db' ≡ some job)
        × (has_completed job.status ≡ true)
        × IsConsistent db'
        × IsSound db'
  unfolding process_job
  process_job-IsSound id objects db db' job s h =
      let (there, ended, c) =
        Ensures-after (IsFinished id) (get_import_job id) _
          (λ found before mid got.
            subst (λ k. Ensures (IsFinished k) (process_found found objects))
              (get_import_job-id id found before mid got)
              (Ensures-bind (IsFinished found.id)
                (lift (adapt_retained_payload ext client found objects)) _
                (λ result. complete_job-IsFinished found result)))
          db db' job h in
      (
        there,
        ended,
        c,
        Keeps-bind (get_import_job id) _
            (Frames-Keeps (get_import_job id) (get_import_job-Frames id))
            (λ found.
              Keeps-bind (lift (adapt_retained_payload ext client found objects)) _
                (Frames-Keeps (lift (adapt_retained_payload ext client found objects))
                  (lift-Frames (adapt_retained_payload ext client found objects)))
                (λ result. complete_job-Keeps found result))
            db db' job h s,
      )
