-- ===== src/Worker/Messages.antt =====
-- The publication of a list of jobs, one after the other.
use supply_chain_integration.Base.{
  String, ◌⊎◌, ℕ, suc, ◌+◌, ◌≡◌, ◌==◌, refl, false, inl, inr, Option-cases, some, is_none, List, [],
  ◌∷◌, All, All-mono, arith,
}
use supply_chain_integration.Domain.Errors.{Result, ok}
use supply_chain_integration.Store.Rows.{Uuid, Time}
use supply_chain_integration.Store.Rows.Imports.{ImportJob}
use supply_chain_integration.Store.Db.{Db}
use supply_chain_integration.Imports.Jobs.{find_job}
use supply_chain_integration.Imports.Queue.{mark_job_dispatched}
use supply_chain_integration.Imports.Soundness.Dispatch.{
  dispatch_result, mark_job_dispatched-IsSound,
}
use supply_chain_integration.Imports.Steps.Preservation.{IsValid}
use supply_chain_integration.Worker.Broker.{
  Broker, Delivery, accepted, broker_unreachable, publish_import_job,
}
use supply_chain_integration.Worker.Tasks.{publish_job, publish_jobs}

abbrev pub HasJob : Db → Uuid → Type 0
HasJob db id = is_none (find_job id db) ≡ false

module _ {ℓ} {Q : Type ℓ} (broker : Broker Q) (at : Uuid → Time) where
  -- What becomes of a list of jobs. The broker is asked for each job in turn, once. A job that it
  -- accepts counts and is marked, if it is still queued, and no other job changes; a job that it
  -- does not accept leaves the database as it is.
  pub data Publication : List Uuid → Q → Db → ℕ → Q → Db → Type ℓ where
    finished : (queue : Q) (db : Db) → Publication [] queue db 0 queue db
    published :
        (id : Uuid) (ids : List Uuid) (queue queue' queue'' : Q) (db db' db'' : Db) (n : ℕ)
        (task_id : String) (job : ImportJob)
        → broker.apply_async id 500 queue ≡ (accepted task_id, queue')
        → find_job id db ≡ some job
        → find_job id db' ≡ some (dispatch_result (at id) job)
        → ((id' : Uuid) → (id' == id) ≡ false → find_job id' db' ≡ find_job id' db)
        → Publication ids queue' db' n queue'' db''
        → Publication (id ∷ ids) queue db (suc n) queue'' db''
    unpublished :
        (id : Uuid) (ids : List Uuid) (queue queue' queue'' : Q) (db db'' : Db) (n : ℕ)
        → broker.apply_async id 500 queue ≡ (broker_unreachable, queue')
        → Publication ids queue' db n queue'' db''
        → Publication (id ∷ ids) queue db n queue'' db''

  -- It ended normally, with a count, in a valid database.
  abbrev pub Publishes : List Uuid → Q → Db → Result ℕ × Db × Q → Type ℓ
  Publishes ids queue db end =
      (n : ℕ) × (db' : Db) × (queue' : Q) × (end ≡ (ok n, db', queue'))
      × Publication ids queue db n queue' db'
      × IsValid db'

  skipped_job :
      (id : Uuid) (queue queue' : Q) (db : Db)
      → broker.apply_async id 500 queue ≡ (broker_unreachable, queue')
      → publish_job broker at id queue db ≡ (ok 0, db, queue')
  unfolding publish_job publish_import_job
  skipped_job id queue queue' db e = ground arith

  marked_job :
      (id : Uuid) (task_id : String) (queue queue' : Q) (db db' : Db) (job : ImportJob)
      → broker.apply_async id 500 queue ≡ (accepted task_id, queue')
      → mark_job_dispatched id (at id) db ≡ ok (job, db')
      → publish_job broker at id queue db ≡ (ok 1, db', queue')
  unfolding publish_job publish_import_job
  marked_job id task_id queue queue' db db' job e h = ground arith

  publish_jobs-first :
      (id : Uuid) (ids : List Uuid) (queue queue' queue'' : Q) (db db' db'' : Db) (n m k : ℕ)
      → n + m ≡ k
      → publish_job broker at id queue db ≡ (ok n, db', queue')
      → publish_jobs broker at ids queue' db' ≡ (ok m, db'', queue'')
      → publish_jobs broker at (id ∷ ids) queue db ≡ (ok k, db'', queue'')
  unfolding publish_jobs
  publish_jobs-first id ids queue queue' queue'' db db' db'' n m k sum e e' =
      rw (← sum) (ground (arith, e, e'))

  Delivery-cases :
      (answer : Delivery × Q)
      → (answer ≡ (broker_unreachable, answer.1))
        ⊎ ((task_id : String) × (answer ≡ (accepted task_id, answer.1)))
  Delivery-cases (accepted task_id, queue) = inr (task_id, refl)
  Delivery-cases (broker_unreachable, queue) = inl refl

  kept :
      (id id' : Uuid) (db db' : Db) (job : ImportJob)
      → find_job id db' ≡ some job
      → ((id' == id) ≡ false → find_job id' db' ≡ find_job id' db)
      → HasJob db id'
      → HasJob db' id'
  kept id id' db db' job there others h = ground arith

  pub publish_jobs-Publishes :
      (ids : List Uuid) (queue : Q) (db : Db)
      → IsValid db
      → All (HasJob db) ids
      → Publishes ids queue db (publish_jobs broker at ids queue db)
  unfolding publish_jobs
  publish_jobs-Publishes [] queue db v has = (0, db, queue, refl, finished queue db, v)
  publish_jobs-Publishes (id ∷ ids) queue db v has =
      let queue' = (broker.apply_async id 500 queue).1 in
      elim (Delivery-cases (broker.apply_async id 500 queue)) [
        | inl e ↦
            let (n, db'', queue'', done, rest, v') = publish_jobs-Publishes ids queue' db v has.1 in
            (
              n,
              db'',
              queue'',
              publish_jobs-first id ids queue queue' queue'' db db db'' 0 n n (omega arith)
                  (skipped_job id queue queue' db e) done,
              unpublished id ids queue queue' queue'' db db'' n e rest,
              v',
            )
        | inr (task_id, e) ↦ elim (Option-cases (find_job id db)) [
          | inl missing ↦ absurd (ground (arith, has.0))
          | inr (job, found) ↦
              let (db', wrote, there, others, c, s) =
                mark_job_dispatched-IsSound id job (at id) db v.0 v.1 found in
              let (n, db'', queue'', done, rest, v') =
                publish_jobs-Publishes ids queue' db' (c, s)
                  (All-mono (HasJob db) (HasJob db') ids
                    (λ id' h. kept id id' db db' _ there (others id') h) has.1) in
              (
                suc n,
                db'',
                queue'',
                publish_jobs-first id ids queue queue' queue'' db db' db'' 1 n (suc n) (omega arith)
                    (marked_job id task_id queue queue' db db' _ e wrote) done,
                published id ids queue queue' queue'' db db' db'' n task_id job e found there others
                    rest,
                v',
              )
        ]
      ]
