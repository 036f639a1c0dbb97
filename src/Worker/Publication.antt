-- ===== src/Worker/Publication.antt =====
-- The periodic tasks: what they publish, and that they never stop half way in a sound database.
use supply_chain_integration.Base.{
  ℕ, ◌≤◌, ◌≡◌, refl, ltb, Bool-cases, inl, inr, some, List, [], ◌∷◌, All, All-mono, All-take,
  All-sort_by, All-select, length, length-take_le, length-map, map, select, arith,
}
use supply_chain_integration.Domain.Errors.{Result, ok}
use supply_chain_integration.Settings.{Settings}
use supply_chain_integration.Store.Rows.{Uuid, Time}
use supply_chain_integration.Store.Rows.Imports.{ImportJob}
use supply_chain_integration.Store.Db.{Db}
use supply_chain_integration.Store.Constraints.{IsConsistent}
use supply_chain_integration.Imports.Jobs.{find_job}
use supply_chain_integration.Imports.Queue.{is_due, jobs_due_for_dispatch}
use supply_chain_integration.Imports.Recovery.{recover_stale_imports}
use supply_chain_integration.Imports.Soundness.{IsSound}
use supply_chain_integration.Imports.Soundness.Stale.{
  stale_jobs, IsIn, own-IsIn, recover_stale_imports-IsSound,
}
use supply_chain_integration.Imports.Soundness.Recovery.{recovered}
use supply_chain_integration.Imports.Soundness.Sweep.{requeued_ids}
use supply_chain_integration.Worker.Broker.{Broker}
use supply_chain_integration.Worker.Tasks.{
  Sweep, publish_jobs, dispatch_queued_imports_task, recover_stale_imports_task,
}
use supply_chain_integration.Worker.Messages.{HasJob, Publication, publish_jobs-Publishes}

module _ {ℓ} {Q : Type ℓ} (broker : Broker Q) (at : Uuid → Time) where
  -- A periodic task ended normally: it answers the number of the jobs that it looked at and of those
  -- that it published, what became of them is a publication, and the database is consistent and
  -- satisfies the invariant.
  abbrev pub Sweeps : List Uuid → Q → Db → Result Sweep × Db × Q → Type ℓ
  Sweeps ids queue db end =
      (n : ℕ) × (db' : Db) × (queue' : Q) × (end
        ≡ (ok (record { jobs = length ids; published = n }), db', queue'))
      × Publication broker at ids queue db n queue' db'
      × IsConsistent db'
      × IsSound db'

HasJob-own : (db : Db) → IsSound db → All (λ j. HasJob db j.id) db.jobs
unfolding find_job
HasJob-own db s =
    All-mono (IsIn db.jobs) (λ j. HasJob db j.id) db.jobs (λ j h. ground (arith, h))
      (own-IsIn db.jobs s.keyed.keys)

HasJob-ids :
    (db : Db) (jobs : List ImportJob)
    → All (λ j. HasJob db j.id) jobs
    → All (HasJob db) (map (λ j. j.id) jobs)
HasJob-ids db [] h = tt
HasJob-ids db (j ∷ jobs) h = (h.0, HasJob-ids db jobs h.1)

HasJob-due :
    (settings : Settings) (now : Time) (limit : ℕ) (db : Db)
    → IsSound db
    → All (λ j. HasJob db j.id) (jobs_due_for_dispatch settings now limit db)
unfolding jobs_due_for_dispatch
HasJob-due settings now limit db s =
    let P = λ (j : ImportJob). HasJob db j.id in
    All-take P limit _ (
      All-sort_by P (λ j. j.created_at) (select (is_due settings now) db.jobs)
        (All-mono _ P _ (λ j h. h.0)
          (All-select P (is_due settings now) db.jobs (HasJob-own db s))))

length-due :
    (settings : Settings) (now : Time) (limit : ℕ) (db : Db)
    → length (jobs_due_for_dispatch settings now limit db) ≤ limit
unfolding jobs_due_for_dispatch
length-due settings now limit db = length-take_le limit _

HasJob-requeued :
    (now : Time) (db : Db) (jobs : List ImportJob)
    → All (λ j. find_job j.id db ≡ some (recovered now j)) jobs
    → All (HasJob db) (requeued_ids jobs)
unfolding requeued_ids
HasJob-requeued now db [] h = tt
HasJob-requeued now db (j ∷ jobs) h = elim (Bool-cases (ltb j.attempt_count j.max_attempts)) [
  | inl more ↦ rw more (ground (arith, h.0), HasJob-requeued now db jobs h.1)
  | inr over ↦ rw over (HasJob-requeued now db jobs h.1)
]

module _ {ℓ} {Q : Type ℓ} (broker : Broker Q) (at : Uuid → Time) (now : Time) where
  dispatch-swept :
      (settings : Settings) (queue queue' : Q) (db db' : Db) (n : ℕ)
      → publish_jobs broker at
          (map (λ j. j.id) (jobs_due_for_dispatch settings now 100 db))
          queue
          db
        ≡ (ok n, db', queue')
      → dispatch_queued_imports_task broker at settings now queue db ≡ (
        ok (record {
          jobs = length (map (λ j. j.id) (jobs_due_for_dispatch settings now 100 db));
          published = n;
        }),
        db',
        queue',
      )
  unfolding dispatch_queued_imports_task
  dispatch-swept settings queue queue' db db' n e = rw e refl

  -- In a consistent database whose jobs satisfy the invariant the dispatch of queued jobs never
  -- fails, whatever the broker answers. It looks at the jobs that are due, 100 of them at most: the
  -- broker is asked for each in turn, those that it accepts are counted and marked, those that it
  -- does not accept stay as they are, and no other job changes. The database is again consistent and
  -- satisfies the invariant.
  pub dispatch_queued_imports_task-Sweeps :
      (settings : Settings) (queue : Q) (db : Db)
      → IsConsistent db
      → IsSound db
      → Sweeps broker at
          (map (λ j. j.id) (jobs_due_for_dispatch settings now 100 db))
          queue
          db
          (dispatch_queued_imports_task broker at settings now queue db)
        × (length (map (λ j. j.id) (jobs_due_for_dispatch settings now 100 db)) ≤ 100)
  dispatch_queued_imports_task-Sweeps settings queue db c s =
      let due = jobs_due_for_dispatch settings now 100 db in
      let ids = map (λ (j : ImportJob). j.id) due in
      let (n, db', queue', answered, done, v) =
        publish_jobs-Publishes broker at ids queue db (c, s)
          (HasJob-ids db due (HasJob-due settings now 100 db s)) in
      (
        (n, db', queue', dispatch-swept settings queue queue' db db' n answered, done, v.0, v.1),
        omega (arith, length-map (λ (j : ImportJob). j.id) due, length-due settings now 100 db),
      )

  recover-swept :
      (queue queue' : Q) (db mid db' : Db) (ids : List Uuid) (n : ℕ)
      → recover_stale_imports now db ≡ ok (ids, mid)
      → publish_jobs broker at ids queue mid ≡ (ok n, db', queue')
      → recover_stale_imports_task broker at now queue db
        ≡ (ok (record { jobs = length ids; published = n }), db', queue')
  unfolding recover_stale_imports_task
  recover-swept queue queue' db mid db' ids n e e' = ground arith

  -- In a consistent database whose jobs satisfy the invariant the recovery of stale jobs never
  -- fails, whatever the broker answers. The stale jobs are recovered; for each of those that are
  -- queued again the broker is asked in turn, those that it accepts are counted and marked, those
  -- that it does not accept stay as they are, and no other job changes. The database is again
  -- consistent and satisfies the invariant.
  pub recover_stale_imports_task-Sweeps :
      (queue : Q) (db : Db)
      → IsConsistent db
      → IsSound db
      → (mid : Db) × (recover_stale_imports now db ≡ ok (requeued_ids (stale_jobs now db), mid))
        × Sweeps broker at
            (requeued_ids (stale_jobs now db))
            queue
            mid
            (recover_stale_imports_task broker at now queue db)
  recover_stale_imports_task-Sweeps queue db c s =
      let (mid, recovered_all, there, others, c', s') = recover_stale_imports-IsSound now db c s in
      let ids = requeued_ids (stale_jobs now db) in
      let (n, db', queue', answered, done, v) =
        publish_jobs-Publishes broker at ids queue mid (c', s')
          (HasJob-requeued now mid (stale_jobs now db) there) in
      (
        mid,
        recovered_all,
        (
          n,
          db',
          queue',
          recover-swept queue queue' db mid db' ids n recovered_all answered,
          done,
          v.0,
          v.1,
        ),
      )
