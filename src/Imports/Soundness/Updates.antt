-- ===== src/Imports/Soundness/Updates.antt =====
-- How the invariant is kept when one job and its attempts change.
use supply_chain_integration.Base.{
  suc, ◌≡◌, ◌≢◌, sym, subst, ◌∙◌, ◌⊎◌, inl, inr, Bool, some, List, [], ◌∷◌, ◌++◌, ◌==◌, ==_iff,
  Bool-cases, update, find, any, any-append, any-update, any_weaken, find-eq-some, find-update_self,
  find-update_other, find-append_some, find-append_last, find-update_some, arith,
}
use supply_chain_integration.Store.Rows.{Uuid}
use supply_chain_integration.Store.Rows.Imports.{ImportJob, ImportAttempt}
use supply_chain_integration.Store.Db.{Db}
use supply_chain_integration.Imports.Jobs.{has_job_id, find_job, is_attempt}
use supply_chain_integration.Imports.Soundness.{beyond, IsNumbered, IsTracked, IsKeyed, IsSound}

-- A job that is found has the id that was searched for.
pub find_job-id : (id : Uuid) (db : Db) (j : ImportJob) → find_job id db ≡ some j → j.id ≡ id
unfolding find_job
find_job-id id db j found = (==_iff j.id id).0 (find-eq-some (has_job_id id) db.jobs j found)

-- After a change of the job that was found, a search finds the changed job or an untouched one.
pub find-changed :
    (id id' : Uuid) (f : ImportJob → ImportJob) (db : Db) (job j : ImportJob)
    → ((x : ImportJob) → (f x).id ≡ x.id)
    → find_job id db ≡ some job
    → find (has_job_id id') (update (has_job_id id) f db.jobs) ≡ some j
    → ((id' ≡ id) × (j ≡ f job)) ⊎ ((id' ≢ id) × (find_job id' db ≡ some j))
unfolding find_job
find-changed id id' f db job j keep found found' = elim (Bool-cases (id' == id)) [
  | inl same ↦
      let e : id' ≡ id = (==_iff id' id).0 same in
      inl (
        e,
        ground (
          arith,
          find-update_self (has_job_id id) f (λ x. rw (keep x)) db.jobs job found,
          rw e at found',
        ),
      )
  | inr other ↦ inr (
    ground arith,
    rw
        (find-update_other (has_job_id id) f (has_job_id id') (λ x. rw (keep x))
          (λ x h. ground arith) db.jobs)
        at found',
  )
]

pub find_job-own :
    (id : Uuid) (db : Db) (j : ImportJob) → find_job id db ≡ some j → find_job j.id db ≡ some j
find_job-own id db j found =
    subst (λ k. find_job k db ≡ some j) (sym (find_job-id id db j found)) found

-- The changed job, found again by its id.
pub find_job-changed :
    (id : Uuid) (f : ImportJob → ImportJob) (db db' : Db) (job : ImportJob)
    → ((x : ImportJob) → (f x).id ≡ x.id)
    → find_job id db ≡ some job
    → db'.jobs ≡ update (has_job_id job.id) f db.jobs
    → find_job id db' ≡ some (f job)
unfolding find_job
find_job-changed id f db db' job keep found changed = rw changed (
    subst (λ k. find (has_job_id id) (update (has_job_id k) f db.jobs) ≡ some (f job))
      (sym (find_job-id id db job found))
      (find-update_self (has_job_id id) f (λ x. rw (keep x)) db.jobs job found))

-- All jobs but the one with this id are sound and numbered.
abbrev pub OthersTracked : Uuid → Db → Type 0
OthersTracked id db =
    (id' : Uuid) (j : ImportJob) → j.id ≢ id → find_job id' db ≡ some j → IsTracked db.attempts j

pub IsSound-change :
    (id : Uuid) (f : ImportJob → ImportJob) (db db' : Db) (job : ImportJob)
    → ((x : ImportJob) → (f x).id ≡ x.id)
    → find_job id db ≡ some job
    → db'.jobs ≡ update (has_job_id id) f db.jobs
    → IsTracked db'.attempts (f job)
    → ((j : ImportJob) → j.id ≢ id → IsNumbered db.attempts j → IsNumbered db'.attempts j)
    → OthersTracked id db
    → IsKeyed db'
    → IsSound db'
unfolding find_job
IsSound-change id f db db' job keep found changed self others s keyed = record {
  keyed = keyed;
  at = λ id' j found'. elim (find-changed id id' f db job j keep found (rw changed at found')) [
    | inl (same, e) ↦ rw e self
    | inr (other, found'') ↦
        let apart = λ (e : j.id ≡ id). other (sym (find_job-id id' db j found'') ∙ e) in
        let t = s id' j apart found'' in
        record { sound = t.sound; numbers = others j apart t.numbers }
  ];
}

-- An attempt of another job changes nothing for a job.
pub IsNumbered-other :
    (attempts : List ImportAttempt) (a : ImportAttempt) (j : ImportJob)
    → j.id ≢ a.import_job_id
    → IsNumbered attempts j
    → IsNumbered (attempts ++ a ∷ []) j
unfolding any
IsNumbered-other attempts a j other t = record {
  numbered = rw any-append (ground (arith, t.numbered));
  current = λ h. find-append_some (is_attempt j.id j.attempt_count) attempts (a ∷ []) (t.current h);
}

-- A job that has counted a new attempt is numbered with it.
pub IsNumbered-next :
    (attempts : List ImportAttempt) (a : ImportAttempt) (j j' : ImportJob)
    → IsNumbered attempts j
    → j'.id ≡ j.id
    → j'.attempt_count ≡ suc j.attempt_count
    → a.import_job_id ≡ j.id
    → a.attempt_number ≡ suc j.attempt_count
    → IsNumbered (attempts ++ a ∷ []) j'
unfolding any
IsNumbered-next attempts a j j' t id count owner number = record {
  numbered =
      rw any-append (
        ground
          (arith, any_weaken (beyond j') (beyond j) (λ x h. ground arith) attempts t.numbered));
  current = λ h. find-append_last (is_attempt j'.id j'.attempt_count) attempts a (ground arith);
}

-- Assignments to an attempt that keep its job and its number change nothing for any job.
pub IsNumbered-update :
    (p : ImportAttempt → Bool) (f : ImportAttempt → ImportAttempt) (attempts : List ImportAttempt)
    (j : ImportJob)
    → ((x : ImportAttempt) → (f x).import_job_id ≡ x.import_job_id)
    → ((x : ImportAttempt) → (f x).attempt_number ≡ x.attempt_number)
    → IsNumbered attempts j
    → IsNumbered (update p f attempts) j
IsNumbered-update p f attempts j owner number t = record {
  numbered = any-update p f (beyond j) (λ x. rw (owner x, number x)) attempts ∙ t.numbered;
  current = λ h.
      find-update_some p (is_attempt j.id j.attempt_count) f (λ x. rw (owner x, number x)) attempts
        (t.current h);
}

-- The same attempts with a job of the same id and count.
pub IsNumbered-same :
    (attempts : List ImportAttempt) (j j' : ImportJob)
    → IsNumbered attempts j
    → j'.id ≡ j.id
    → j'.attempt_count ≡ j.attempt_count
    → IsNumbered attempts j'
IsNumbered-same attempts j j' t id count = record {
  numbered = rw (id, count) t.numbered;
  current = rw (id, count) t.current;
}
