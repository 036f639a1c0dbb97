-- ===== src/Api/Publication.antt =====
-- The rest of a route after its submission: the publication of the job, and the answer.
use supply_chain_integration.Base.{
  ◌≡◌, refl, sym, ap, subst, ◌∙◌, Bool, true, false, ◌||◌, ◌==◌, ℕ, Bool-cases, ◌⊎◌, inl, inr,
  Option, some, none, Option-cases, String, arith,
}
use supply_chain_integration.Domain.Enums.{is_queued}
use supply_chain_integration.Domain.Errors.{Exn, Result, ok, err}
use supply_chain_integration.Store.Rows.{Uuid, Time}
use supply_chain_integration.Store.Rows.Imports.{ImportJob}
use supply_chain_integration.Store.Db.{Db}
use supply_chain_integration.Imports.Jobs.{find_job}
use supply_chain_integration.Imports.Queue.{Submission, mark_job_dispatched}
use supply_chain_integration.Imports.Soundness.Dispatch.{
  dispatch_result, mark_job_dispatched-IsSound,
}
use supply_chain_integration.Imports.Steps.Preservation.{IsValid}
use supply_chain_integration.Worker.Broker.{Broker, publish_import_job}
use supply_chain_integration.Api.Errors.{Response, answered, refused, status_of, respond}
use supply_chain_integration.Api.Headers.{is_idempotency_key}
use supply_chain_integration.Api.Imports.{System, publish_if_queued, after_submission}
use supply_chain_integration.Api.Answers.{is_job_of, Submits}

-- The statuses with which a route refuses.
abbrev pub is_refusal : ℕ → Bool
is_refusal status =
    status == 401
    || status == 404
    || status == 409
    || status == 422
    || status == 500
    || status == 503

module _ {ℓ} {O Q : Type ℓ} (system : System O Q) where
  -- A refused request has changed nothing in the database and published nothing.
  abbrev pub Refuses : Response ImportJob × System O Q → Type ℓ
  Refuses end =
      (status : ℕ) × (end.0 ≡ refused status)
      × (is_refusal status ≡ true)
      × (end.1.database ≡ system.database)
      × (end.1.queue ≡ system.queue)

  -- An accepted one is answered with its job, as it is found in the database.
  abbrev pub Accepts : Submission → Response ImportJob × System O Q → Type 0
  Accepts request end =
      (job : ImportJob) × (end.0 ≡ answered 202 job)
      × (find_job job.id end.1.database ≡ some job)
      × (is_job_of request job ≡ true)
      × IsValid end.1.database

  -- Only a request with the partner token and a well-formed key is accepted.
  abbrev pub Answers :
      String
      → Option String
      → Option String
      → (String → Submission)
      → Response ImportJob × System O Q
      → Type ℓ
  Answers expected token idempotency_key request end =
      Refuses end
      ⊎ ((key : String) × (idempotency_key ≡ some key)
          × (token ≡ some expected)
          × (is_idempotency_key key ≡ true)
          × Accepts (request key) end)

status_of-is_refusal : (e : Exn) → is_refusal (status_of e) ≡ true
status_of-is_refusal e = ground arith

find_same :
    (id id' : Uuid) (job : ImportJob) (db : Db)
    → id' ≡ id
    → find_job id db ≡ some job
    → find_job id' db ≡ some job
find_same id id' job db e there = rw e there

module _ {ℓ} {O Q : Type ℓ} (broker : Broker Q) (at : Time) where
  -- What a publication leaves: the job as the database has it, and a valid database.
  abbrev Publishes : ImportJob → Result ImportJob × System O Q → Type 0
  Publishes job end =
      (job' : ImportJob) × (end.0 ≡ ok job')
      × (find_job job'.id end.1.database ≡ some job')
      × ((request : Submission) → is_job_of request job' ≡ is_job_of request job)
      × IsValid end.1.database

  publish_if_queued-skips :
      (job : ImportJob) (system : System O Q)
      → is_queued job.status ≡ false
      → publish_if_queued broker job at system ≡ (ok job, system)
  unfolding publish_if_queued
  publish_if_queued-skips job system h = ground arith

  -- The broker cannot be reached: the periodic dispatch will find the job.
  publish_if_queued-unpublished :
      (job : ImportJob) (system : System O Q)
      → is_queued job.status ≡ true
      → (publish_import_job broker job.id system.queue).0 ≡ none
      → publish_if_queued broker job at system
        ≡ (ok job, record system { queue = (publish_import_job broker job.id system.queue).1 })
  unfolding publish_if_queued
  publish_if_queued-unpublished job system h e = ground arith

  publish_if_queued-published :
      (job job' : ImportJob) (task_id : String) (db' : Db) (system : System O Q)
      → is_queued job.status ≡ true
      → (publish_import_job broker job.id system.queue).0 ≡ some task_id
      → mark_job_dispatched job.id at system.database ≡ ok (job', db')
      → publish_if_queued broker job at system ≡ (
        ok job',
        record system { database = db'; queue = (publish_import_job broker job.id system.queue).1 },
      )
  unfolding publish_if_queued
  publish_if_queued-published job job' task_id db' system h e wrote = ground arith

  publish_if_queued-Publishes :
      (job : ImportJob) (system : System O Q)
      → find_job job.id system.database ≡ some job
      → IsValid system.database
      → Publishes job (publish_if_queued broker job at system)
  publish_if_queued-Publishes job system found v = elim (Bool-cases (is_queued job.status)) [
    | inr other ↦
        subst (Publishes job) (sym (publish_if_queued-skips job system other))
          (job, refl, found, λ request. refl, v)
    | inl queued ↦ elim (Option-cases (publish_import_job broker job.id system.queue).0) [
      | inl e ↦
          subst (Publishes job) (sym (publish_if_queued-unpublished job system queued e))
            (job, refl, found, λ request. refl, v)
      | inr (task_id, e) ↦
          let (db', wrote, there, others, c, s) =
            mark_job_dispatched-IsSound job.id job at system.database v.0 v.1 found in
          subst (Publishes job)
            (sym (publish_if_queued-published job _ task_id db' system queued e wrote))
            (
              dispatch_result at job,
              refl,
              find_same job.id (dispatch_result at job).id (dispatch_result at job) db'
                  (rw queued refl) there,
              λ request. rw queued refl,
              (c, s),
            )
    ]
  ]

  -- A submission that keeps its promise, followed by the publication.
  pub after_submission-Refuses :
      (e : Exn) (objects : O) (system : System O Q)
      → Refuses system (after_submission broker (err e, objects) at system)
  unfolding after_submission
  after_submission-Refuses e objects system = (_, refl, status_of-is_refusal e, refl, refl)

  pub after_submission-Accepts :
      (request : Submission) (job : ImportJob) (created : Bool) (db : Db) (objects : O)
      (system : System O Q)
      → find_job job.id db ≡ some job
      → is_job_of request job ≡ true
      → IsValid db
      → Accepts system request
          (after_submission broker (ok ((job, created), db), objects) at system)
  unfolding after_submission
  after_submission-Accepts request job created db objects system found own v =
      let (job', answer, there, same, v') =
        publish_if_queued-Publishes job (record system { database = db; objects = objects }) found
          v in
      (job', ap (respond 202) answer, there, same request ∙ own, v')

  pub after_submission-Answers :
      (request : Submission) (submitted : Result ((ImportJob × Bool) × Db)) (objects : O)
      (system : System O Q)
      → Submits request submitted
      → Refuses system (after_submission broker (submitted, objects) at system)
        ⊎ Accepts system request (after_submission broker (submitted, objects) at system)
  after_submission-Answers request submitted objects system (inl (e, failed)) = inl (
      subst (λ r. Refuses system (after_submission broker (r, objects) at system)) (sym failed)
        (after_submission-Refuses e objects system))
  after_submission-Answers request submitted objects system
        (inr (job, created, db', done, found, own, v)) =
      inr (
        subst (λ r. Accepts system request (after_submission broker (r, objects) at system))
          (sym done) (after_submission-Accepts request job created db' objects system found own v))
