-- ===== src/Imports/Soundness/Keys.antt =====
-- The primary keys of the jobs under the writes of the import services.
use supply_chain_integration.Base.{
  ℕ, ◌≤◌, ◌≡◌, refl, Bool, true, some, [], ◌∷◌, ◌++◌, update, every, every-update, every-append,
  every_weaken, every-find, unique-update, arith,
}
use supply_chain_integration.Store.Rows.{Uuid}
use supply_chain_integration.Store.Rows.Imports.{ImportJob, ImportAttempt}
use supply_chain_integration.Store.Db.{Db}
use supply_chain_integration.Imports.Jobs.{has_job_id, find_job}
use supply_chain_integration.Imports.Soundness.{same_job_id, older_job, older_owner, IsKeyed}

-- Jobs keep their ids, no id is drawn twice, and each attempt belongs to an id that was drawn.
pub IsKeyed-change :
    (p : ImportJob → Bool) (f : ImportJob → ImportJob) (db db' : Db)
    → ((x : ImportJob) → (f x).id ≡ x.id)
    → db'.jobs ≡ update p f db.jobs
    → db.next_id ≤ db'.next_id
    → every (older_owner db'.next_id) db'.attempts ≡ true
    → IsKeyed db
    → IsKeyed db'
IsKeyed-change p f db db' keep changed grows owners k = record {
  keys = rw changed (
      rw (unique-update p f same_job_id (λ x y. rw (keep x) refl) (λ x y. rw (keep y) refl) db.jobs)
        k.keys);
  fresh = rw changed (
      every-update p f (older_job db'.next_id) (λ x h. rw (keep x) h) db.jobs
        (every_weaken (older_job db.next_id) (older_job db'.next_id) (λ x h. ground arith) db.jobs
          k.fresh));
  owners = owners;
}

pub owners-update :
    (p : ImportAttempt → Bool) (g : ImportAttempt → ImportAttempt) (db : Db) (next_id : ℕ)
    → ((x : ImportAttempt) → (g x).import_job_id ≡ x.import_job_id)
    → db.next_id ≤ next_id
    → IsKeyed db
    → every (older_owner next_id) (update p g db.attempts) ≡ true
owners-update p g db next_id keep grows k =
    every-update p g (older_owner next_id) (λ x h. rw (keep x) h) db.attempts
      (every_weaken (older_owner db.next_id) (older_owner next_id) (λ x h. ground arith) db.attempts
        k.owners)

-- A new attempt of a job that is there.
pub owners-append :
    (id : Uuid) (job : ImportJob) (a : ImportAttempt) (db : Db) (next_id : ℕ)
    → find_job id db ≡ some job
    → a.import_job_id ≡ job.id
    → db.next_id ≤ next_id
    → IsKeyed db
    → every (older_owner next_id) (db.attempts ++ a ∷ []) ≡ true
unfolding find_job every
owners-append id job a db next_id found owner grows k = rw every-append (
    ground (
      arith,
      every_weaken (older_owner db.next_id) (older_owner next_id) (λ x h. ground arith) db.attempts
          k.owners,
      every-find (older_job db.next_id) (has_job_id id) db.jobs job k.fresh found,
    ))
