-- ===== src/Imports/Queue.antt =====
-- `submit_inventory_import`, `mark_job_dispatched` and `jobs_due_for_dispatch` of
-- integration_services.py.
use Prim.Native.String.{count}
use supply_chain_integration.Base.{
  ℕ, ◌+◌, String, Option, none, some, Bool, true, false, not, ◌&&◌, List, [], ◌∷◌, ◌++◌, ◌==◌, leb,
  str_eq, is_text, find, select, sort_by, take, if◌then◌else◌,
}
use supply_chain_integration.Domain.Enums.{ImportSourceType, ImportStatus, same_source, is_queued}
use supply_chain_integration.Domain.Errors.{
  Result, ok, err, resource_conflict, resource_unavailable, other_error,
}
use supply_chain_integration.Settings.{Settings}
use supply_chain_integration.Objects.{S3Client, Answer, value, StoredObject, put}
use supply_chain_integration.Objects.Keys.{build_raw_object_key}
use supply_chain_integration.Store.Rows.{Uuid, Time, Bytes, seconds}
use supply_chain_integration.Store.Rows.Imports.{ImportJob}
use supply_chain_integration.Store.Db.{Db}
use supply_chain_integration.Store.Session.{
  Tx, branch, pure, raise, raise_if, modify, fresh_id, flush, commit_or_conflict, ◌>>=◌, ◌>>◌,
}
use supply_chain_integration.Imports.Jobs.{
  get_import_job, set_job, get_supplier_by_code, record_import_event,
}

-- The arguments of `submit_inventory_import`.
pub record Submission : Type 0 where
  pub supplier_code : String
  pub source_type : ImportSourceType
  pub adapter_version : String
  pub content : Bytes
  pub content_sha256 : String
  pub content_type : String
  pub idempotency_key : String
  pub original_filename : Option String
  pub replay_of_job_id : Option Uuid
  pub correlation_id : Option String

abbrev pub is_submission : Uuid → Submission → ImportJob → Bool
is_submission supplier_id request job =
    job.supplier_id == supplier_id
    && same_source job.source_type request.source_type
    && is_text job.idempotency_key request.idempotency_key

-- The job that the same supplier already submitted under this key, if there is one.
unfoldable pub find_submission : Uuid → Submission → Db → Option ImportJob
find_submission supplier_id request db = find (is_submission supplier_id request) db.jobs

abbrev pub queued_job : Settings → Uuid → Uuid → Submission → StoredObject → Time → ImportJob
queued_job settings id supplier_id request stored now = record {
  id = id;
  supplier_id = supplier_id;
  source_type = request.source_type;
  adapter_version = request.adapter_version;
  original_filename = request.original_filename;
  content_sha256 = request.content_sha256;
  content_type = request.content_type;
  payload = none;
  payload_object_key = some stored.key;
  payload_size_bytes = some stored.size_bytes;
  idempotency_key = some request.idempotency_key;
  correlation_id = request.correlation_id;
  status = ImportStatus.queued;
  total_records = 0;
  accepted_records = 0;
  rejected_records = 0;
  attempt_count = 0;
  max_attempts = settings.import_max_attempts;
  dispatched_at = none;
  started_at = none;
  completed_at = none;
  next_retry_at = none;
  lease_expires_at = none;
  worker_id = none;
  failure_code = none;
  failure_message = none;
  last_error_retryable = none;
  replay_of_job_id = request.replay_of_job_id;
  created_at = now;
}

abbrev short_enough : ℕ → String → Bool
short_enough limit text = leb (count text) limit

abbrev short_or_none : ℕ → Option String → Bool
short_or_none limit none = true
short_or_none limit (some text) = short_enough limit text

-- The texts of a job fit their columns `String(n)`.
abbrev pub fits_columns : ImportJob → Bool
fits_columns job =
    short_enough 100 job.adapter_version
    && short_or_none 255 job.original_filename
    && short_enough 64 job.content_sha256
    && short_enough 100 job.content_type
    && short_or_none 1000 job.payload_object_key
    && short_or_none 128 job.idempotency_key
    && short_or_none 128 job.correlation_id

module _ {ℓ} {O : Type ℓ} (settings : Settings) (client : S3Client O)
    (isoformat : Time → String) where
  -- What follows the storage of the payload, in the transaction that began before it. A text that
  -- is too long for its column is an error of the driver at the commit, which `_commit` does not
  -- catch.
  unfoldable pub queue_job : Uuid → Submission → StoredObject → Time → Tx (ImportJob × Bool)
  queue_job supplier_id request stored now = do
    id ← fresh_id
    let job = queued_job settings id supplier_id request stored now
    modify (λ db. record db { jobs = db.jobs ++ job ∷ [] })
    record_import_event job "FastAPI" "request.validated" "succeeded" now
    record_import_event job "SeaweedFS" "payload.stored" "succeeded" now
    record_import_event job "PostgreSQL" "job.queued" "succeeded" now
    raise_if (not (fits_columns job)) other_error
    commit_or_conflict
    pure (job, true)

  -- A stored payload continues with the job; a failed `put` means that nothing is queued.
  abbrev pub after_put : Answer StoredObject → Uuid → Submission → Time → Tx (ImportJob × Bool)
  after_put (value stored) supplier_id request now = queue_job supplier_id request stored now
  after_put failure supplier_id request now = raise resource_unavailable

  -- The part after the supplier was found: an earlier submission under the key is returned or is a
  -- conflict, and only a new one writes to the object store.
  unfoldable pub submit_for :
      Uuid → Submission → Option ImportJob → Time → Db → O → Result ((ImportJob × Bool) × Db) × O
  submit_for supplier_id request (some existing) now db objects = (
    if not (str_eq existing.content_sha256 request.content_sha256)
        then err resource_conflict
        else ok ((existing, false), db),
    objects,
  )
  submit_for supplier_id request none now db objects =
      let key =
        build_raw_object_key isoformat request.source_type request.content_sha256 none now in
      let (answer, objects') = put client key request.content objects in
      (after_put answer supplier_id request now db, objects')

  unfoldable pub submit_inventory_import :
      Submission → Time → Db → O → Result ((ImportJob × Bool) × Db) × O
  unfolding submit_for
  submit_inventory_import request now db objects =
      elim (get_supplier_by_code request.supplier_code db) [
        | err e ↦ (err e, objects)
        | ok (supplier, db') ↦
            submit_for supplier.id request (find_submission supplier.id request db') now db' objects
      ]

abbrev pub dispatched : Time → ImportJob → ImportJob
dispatched at job = record job { dispatched_at = some at }

dispatch_queued : ImportJob → Time → Tx ImportJob
dispatch_queued job now = do
  modify (set_job job.id (dispatched now))
  record_import_event job "Redis" "job.dispatched" "succeeded" now
  flush
  pure (dispatched now job)

-- `now` stands for `dispatched_at or datetime.now(UTC)`.
unfoldable pub mark_job_dispatched : Uuid → Time → Tx ImportJob
unfolding dispatch_queued
mark_job_dispatched id now = do
  job ← get_import_job id
  branch (is_queued job.status) (dispatch_queued job now) (pure job)

-- `or_(column.is_(None), column <= now - age)`; no instant is before 0, so the age is added.
abbrev pub none_or_older : Option Time → Time → Time → Bool
none_or_older none age now = true
none_or_older (some t) age now = leb (t + age) now

abbrev pub is_due : Settings → Time → ImportJob → Bool
is_due settings now job =
    is_queued job.status
    && none_or_older job.next_retry_at 0 now
    && none_or_older job.dispatched_at (seconds settings.import_redispatch_seconds) now

unfoldable pub jobs_due_for_dispatch : Settings → Time → ℕ → Db → List ImportJob
unfolding select sort_by
jobs_due_for_dispatch settings now limit db =
    take limit (sort_by (λ job. job.created_at) (select (is_due settings now) db.jobs))
