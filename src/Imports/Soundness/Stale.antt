-- ===== src/Imports/Soundness/Stale.antt =====
-- `recover_stale_imports`: the jobs that it selects, and the theorem about the whole.
use supply_chain_integration.Base.{
  ◌≡◌, refl, Bool, true, false, some, List, [], ◌∷◌, find, any, unique, select, All, All-mono,
  All-select, arith,
}
use supply_chain_integration.Domain.Errors.{ok}
use supply_chain_integration.Store.Rows.{Uuid, Time}
use supply_chain_integration.Store.Rows.Imports.{ImportJob}
use supply_chain_integration.Store.Db.{Db}
use supply_chain_integration.Store.Session.{flush}
use supply_chain_integration.Store.Constraints.{
  IsConsistent, constraints_hold, constraints_hold_of_IsConsistent,
}
use supply_chain_integration.Imports.Jobs.{has_job_id, find_job}
use supply_chain_integration.Imports.Recovery.{is_stale, recover_jobs, recover_stale_imports}
use supply_chain_integration.Imports.Soundness.{IsSound, same_job_id}
use supply_chain_integration.Imports.Soundness.Recovery.{recovered}
use supply_chain_integration.Imports.Soundness.Sweep.{requeued_ids, IsHeld, recover_jobs_lem}

abbrev pub stale_jobs : Time → Db → List ImportJob
stale_jobs now db = select (is_stale now) db.jobs

abbrev pub IsIn : List ImportJob → ImportJob → Type 0
IsIn xs j = find (has_job_id j.id) xs ≡ some j

own-IsIn_rest :
    (x : ImportJob) (xs js : List ImportJob)
    → any (same_job_id x) js ≡ false
    → All (IsIn xs) js
    → All (IsIn (x ∷ xs)) js
unfolding any find
own-IsIn_rest x xs [] apart h = tt
own-IsIn_rest x xs (j ∷ js) apart h =
    (ground (arith, h.0), own-IsIn_rest x xs js (ground arith) h.1)

-- Where ids are unique, every row is the one that its id finds.
pub own-IsIn : (xs : List ImportJob) → unique same_job_id xs ≡ true → All (IsIn xs) xs
unfolding unique find
own-IsIn [] h = tt
own-IsIn (x ∷ xs) h =
    (ground arith, own-IsIn_rest x xs xs (ground arith) (own-IsIn xs (ground arith)))

any-select :
    (p q : ImportJob → Bool) (xs : List ImportJob) → any q xs ≡ false → any q (select p xs) ≡ false
unfolding any select
any-select p q [] h = refl
any-select p q (x ∷ xs) h = ground (arith, any-select p q xs)

unique-select :
    (p : ImportJob → Bool) (xs : List ImportJob)
    → unique same_job_id xs ≡ true
    → unique same_job_id (select p xs) ≡ true
unfolding unique any select
unique-select p [] h = refl
unique-select p (x ∷ xs) h = ground (arith, unique-select p xs, any-select p (same_job_id x) xs)

recover_stale_imports-commits :
    (now : Time) (db db' : Db)
    → recover_jobs now (stale_jobs now db) db ≡ ok (requeued_ids (stale_jobs now db), db')
    → constraints_hold db' ≡ true
    → recover_stale_imports now db ≡ ok (requeued_ids (stale_jobs now db), db')
unfolding recover_stale_imports flush
recover_stale_imports-commits now db db' returned holds = ground arith

pub recover_stale_imports-IsSound :
    (now : Time) (db : Db)
    → IsConsistent db
    → IsSound db
    → (db' : Db) × (recover_stale_imports now db ≡ ok (requeued_ids (stale_jobs now db), db'))
      × All (λ j. find_job j.id db' ≡ some (recovered now j)) (stale_jobs now db)
      × ((id : Uuid)
          → any (has_job_id id) (stale_jobs now db) ≡ false
          → find_job id db' ≡ find_job id db)
      × IsConsistent db'
      × IsSound db'
unfolding find_job
recover_stale_imports-IsSound now db c s =
    let held =
      All-mono (λ j. IsIn db.jobs j × (is_stale now j ≡ true)) (IsHeld db) (stale_jobs now db)
        (λ j h. (h.0, ground (arith, h.1)))
        (All-select (IsIn db.jobs) (is_stale now) db.jobs (own-IsIn db.jobs s.keyed.keys)) in
    let (db', returned, c', s', done, others) =
      recover_jobs_lem now (stale_jobs now db) db c s
        (unique-select (is_stale now) db.jobs s.keyed.keys) held in
    (
      db',
      recover_stale_imports-commits now db db' returned (constraints_hold_of_IsConsistent db' c'),
      done,
      others,
      c',
      s',
    )
