-- ===== src/Examples.antt =====
-- A small database and an object store, and the theorems at them.
pub mod Imports
pub mod Payloads
pub mod Steps
pub mod Workers
pub mod Analytics
pub mod Api
pub mod Learning
pub mod Replays
pub mod Orders
pub mod Domain
use supply_chain_integration.Base.{
  ℕ, String, Option, some, none, List, [], ◌∷◌, ◌≡◌, refl, Bool, true, false, str_eq, find, length,
  any, unique, every, arith,
}
use supply_chain_integration.Domain.Enums.{RecordStatus, ImportSourceType}
use supply_chain_integration.Settings.{Settings, InRange, default_settings}
use supply_chain_integration.Objects.{S3Client, Reply, body, client_error, StoredObject}
use supply_chain_integration.Store.Rows.{Uuid, Time, Bytes}
use supply_chain_integration.Store.Rows.Catalog.{Supplier}
use supply_chain_integration.Store.Rows.Imports.{ImportJob}
use supply_chain_integration.Store.Db.{Db, empty}
use supply_chain_integration.Store.Constraints.{
  IsConsistent, constraints_hold, constraints_hold-IsConsistent,
}
use supply_chain_integration.Imports.Jobs.{find_job}
use supply_chain_integration.Partners.SupplierB.{invalid}
use supply_chain_integration.Imports.Payload.{Externals}
use supply_chain_integration.Imports.Queue.{Submission, find_submission}
use supply_chain_integration.Imports.Soundness.{IsSound}
use supply_chain_integration.Imports.Soundness.Submit.{
  new_job, submitted_db, submitted_db-IsConsistent, submitted_db-IsSound,
}

-- An object store that keeps what is put.
abbrev pub Objects : Type 0
Objects = List (String × Bytes)

abbrev head_of : Option (String × Bytes) → Option ℕ
head_of none = none
head_of (some (key, content)) = some (length content)

abbrev reply_of : Option (String × Bytes) → Reply
reply_of none = client_error "NoSuchKey"
reply_of (some (key, content)) = body content

abbrev pub client : S3Client Objects
client = record {
  put_object = λ key content o. (true, (key, content) ∷ o);
  head_object = λ key o. head_of (find (λ entry. str_eq entry.0 key) o);
  get_object = λ key o. reply_of (find (λ entry. str_eq entry.0 key) o);
}

abbrev pub ext : Externals
ext = record {
  sha256 = λ content. "abc";
  validate_json = λ content. none;
  model_dump = λ item. [];
  decode_csv = λ content. none;
  validate_row = λ cells. invalid [];
}

abbrev pub isoformat : Time → String
isoformat t = "2026-01-05"

pub default_range : InRange default_settings
default_range = ground arith

abbrev pub acme : Supplier
acme = record { id = 0; code = "ACME"; name = "Acme"; status = RecordStatus.active }

abbrev pub one_supplier : Db
one_supplier = record empty { next_id = 1; suppliers = acme ∷ [] }

abbrev pub request : Submission
request = record {
  supplier_code = "ACME";
  source_type = ImportSourceType.supplier_a_json;
  adapter_version = "1.0";
  content = 1 ∷ 2 ∷ 3 ∷ [];
  content_sha256 = "abc";
  content_type = "application/json";
  idempotency_key = "key-1";
  original_filename = none;
  replay_of_job_id = none;
  correlation_id = none;
}

pub one_supplier-IsConsistent : IsConsistent one_supplier
unfolding constraints_hold unique every any
one_supplier-IsConsistent = constraints_hold-IsConsistent one_supplier refl

pub one_supplier-IsSound : IsSound one_supplier
unfolding find_job find unique every
one_supplier-IsSound = record {
  keyed = record { keys = refl; fresh = refl; owners = refl };
  at = λ id j found. ground arith;
}

abbrev pub stored : StoredObject
stored = record {
  key = "raw/inventory/source=supplier_a_json/ingest_date=2026-01-05/abc.json";
  size_bytes = 3;
}

-- One job, queued.
abbrev pub queued_db : Db
queued_db = submitted_db default_settings 0 request stored 100 one_supplier

abbrev pub queued : ImportJob
queued = new_job default_settings 0 request stored 100 one_supplier

pub queued_db-IsConsistent : IsConsistent queued_db
unfolding find_submission find
queued_db-IsConsistent =
    submitted_db-IsConsistent default_settings 0 request stored 100 one_supplier default_range refl
      one_supplier-IsConsistent

pub queued_db-IsSound : IsSound queued_db
queued_db-IsSound =
    submitted_db-IsSound default_settings 0 request stored 100 one_supplier default_range
      one_supplier-IsSound
