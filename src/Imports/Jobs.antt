-- ===== src/Imports/Jobs.antt =====
-- Reading and writing the rows of one job: `get_import_job`, `_find_current_attempt`,
-- `_get_current_attempt`, `_get_supplier_by_code`, and `record_import_event` of
-- learning_services.py. An attribute that is assigned on a loaded object is an update of its row.
use supply_chain_integration.Base.{
  ℕ, String, Option, Bool, ◌&&◌, [], ◌∷◌, ◌++◌, ◌==◌, str_eq, find, update,
}
use supply_chain_integration.Domain.Errors.{resource_not_found, permanent_import}
use supply_chain_integration.Store.Rows.{Uuid, Time}
use supply_chain_integration.Store.Rows.Catalog.{Supplier}
use supply_chain_integration.Store.Rows.Imports.{ImportJob, ImportAttempt, OperationEvent}
use supply_chain_integration.Store.Db.{Db}
use supply_chain_integration.Store.Session.{Tx, modify, or_raise, fresh_id, ◌>>=◌}

abbrev pub has_job_id : Uuid → ImportJob → Bool
has_job_id id job = job.id == id

unfoldable pub find_job : Uuid → Db → Option ImportJob
find_job id db = find (has_job_id id) db.jobs

unfoldable pub get_import_job : Uuid → Tx ImportJob
get_import_job id db = or_raise (find_job id db) resource_not_found db

-- Assignments to the attributes of the job.
unfoldable pub set_job : Uuid → (ImportJob → ImportJob) → Db → Db
set_job id change db = record db { jobs = update (has_job_id id) change db.jobs }

abbrev pub is_attempt : Uuid → ℕ → ImportAttempt → Bool
is_attempt id number attempt = attempt.import_job_id == id && attempt.attempt_number == number

-- `_find_current_attempt`
unfoldable pub find_current_attempt : ImportJob → Db → Option ImportAttempt
find_current_attempt job db = find (is_attempt job.id job.attempt_count) db.attempts

-- `_get_current_attempt`
unfoldable pub get_current_attempt : ImportJob → Tx ImportAttempt
get_current_attempt job db = or_raise (find_current_attempt job db) permanent_import db

-- Assignments to the attributes of the attempt with that number.
unfoldable pub set_attempt : Uuid → ℕ → (ImportAttempt → ImportAttempt) → Db → Db
set_attempt id number change db = record db {
  attempts = update (is_attempt id number) change db.attempts;
}

unfoldable pub add_attempt : ImportAttempt → Db → Db
add_attempt attempt db = record db { attempts = db.attempts ++ attempt ∷ [] }

-- `_get_supplier_by_code`
unfoldable pub get_supplier_by_code : String → Tx Supplier
get_supplier_by_code code db =
    or_raise (find (λ s. str_eq s.code code) db.suppliers) resource_not_found db

abbrev pub operation_event : Uuid → ImportJob → String → String → String → Time → OperationEvent
operation_event id job component stage status occurred_at = record {
  id = id;
  import_job_id = job.id;
  correlation_id = job.correlation_id;
  component = component;
  stage = stage;
  status = status;
  occurred_at = occurred_at;
}

-- `now` is the instant of the transaction that the event belongs to.
unfoldable pub record_import_event : ImportJob → String → String → String → Time → Tx (Unit {0})
record_import_event job component stage status now = do
  id ← fresh_id
  modify (λ db. record db {
    events = db.events ++ operation_event id job component stage status now ∷ [];
  })
