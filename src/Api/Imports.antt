-- ===== src/Api/Imports.antt =====
-- api/routes/integrations.py, and the replay of api/routes/imports.py: what the functions do with
-- the valid requests that the framework passes on.
use supply_chain_integration.Base.{
  ℕ, suc, ◌*◌, String, Option, none, some, Bool, true, false, str_eq, ltb, length, take,
  if◌then◌else◌,
}
use supply_chain_integration.Domain.Enums.{ImportSourceType, is_queued}
use supply_chain_integration.Domain.Errors.{Result, ok, err, domain_validation}
use supply_chain_integration.Settings.{Settings}
use supply_chain_integration.Objects.{S3Client}
use supply_chain_integration.Partners.CarrierC.{CarrierCEvent, adapt}
use supply_chain_integration.Store.Rows.{Uuid, Time, Bytes}
use supply_chain_integration.Store.Rows.Trade.{Shipment}
use supply_chain_integration.Store.Rows.Imports.{ImportJob}
use supply_chain_integration.Store.Db.{Db}
use supply_chain_integration.Store.Session.{transact}
use supply_chain_integration.Services.Shipments.{process_carrier_event}
use supply_chain_integration.Imports.Queue.{
  Submission, submit_inventory_import, mark_job_dispatched,
}
use supply_chain_integration.Imports.Payload.{Externals}
use supply_chain_integration.Imports.Replay.{replay_failed_import}
use supply_chain_integration.Worker.Broker.{Broker, publish_import_job}
use supply_chain_integration.Api.Errors.{Response, refused, status_of, respond}
use supply_chain_integration.Api.Headers.{is_idempotency_key, require_partner_token}

-- What the functions work on: the database, the object store, and the broker with its messages.
pub record System {ℓ} (O Q : Type ℓ) : Type ℓ where
  pub database : Db
  pub objects : O
  pub queue : Q

abbrev pub max_csv_bytes : ℕ
max_csv_bytes = 10 * 1024 * 1024

-- A file that a client sends, with the name and the type that it may give.
pub record Upload : Type 0 where
  pub content : Bytes
  pub content_type : Option String
  pub filename : Option String

-- `text or default`
abbrev or_text : Option String → String → String
or_text none default = default
or_text (some t) default = if str_eq t "" then default else t

abbrev pub supplier_a_request : Externals → Bytes → String → Option String → Submission
supplier_a_request ext content idempotency_key correlation_id = record {
  supplier_code = "SUPPLIER_A";
  source_type = ImportSourceType.supplier_a_json;
  adapter_version = "supplier-a.inventory.v1";
  content = content;
  content_sha256 = ext.sha256 content;
  content_type = "application/json";
  idempotency_key = idempotency_key;
  original_filename = none;
  replay_of_job_id = none;
  correlation_id = correlation_id;
}

abbrev pub supplier_b_request : Externals → Bytes → Upload → String → Option String → Submission
supplier_b_request ext content file idempotency_key correlation_id = record {
  supplier_code = "SUPPLIER_B";
  source_type = ImportSourceType.supplier_b_csv;
  adapter_version = "supplier-b.inventory-csv.v1";
  content = content;
  content_sha256 = ext.sha256 content;
  content_type = or_text file.content_type "text/csv";
  idempotency_key = idempotency_key;
  original_filename = file.filename;
  replay_of_job_id = none;
  correlation_id = correlation_id;
}

module _ {ℓ} {O Q : Type ℓ} (broker : Broker Q) where
  -- The loaded job, which the dispatch changes.
  abbrev after_publication :
      Option String → ImportJob → Time → System O Q → Result ImportJob × System O Q
  after_publication none job at system = (ok job, system)
  after_publication (some task_id) job at system =
      let (answer, db) = transact (mark_job_dispatched job.id at) system.database in
      (answer, record system { database = db })

  unfoldable pub publish_if_queued : ImportJob → Time → System O Q → Result ImportJob × System O Q
  publish_if_queued job at system = elim (is_queued job.status) [
    | false ↦ (ok job, system)
    | true ↦
        let (receipt, queue) = publish_import_job broker job.id system.queue in
        after_publication receipt job at (record system { queue = queue })
  ]

  -- The rest of a route that has submitted an import.
  unfoldable pub after_submission :
      Result ((ImportJob × Bool) × Db) × O → Time → System O Q → Response ImportJob × System O Q
  unfolding publish_if_queued
  after_submission (err e, objects) at system =
      (refused (status_of e), record system { objects = objects })
  after_submission (ok ((job, created), db), objects) at system =
      let (answer, system') =
        publish_if_queued job at (record system { database = db; objects = objects }) in
      (respond 202 answer, system')

module _ {ℓ} {O Q : Type ℓ} (settings : Settings) (ext : Externals) (client : S3Client O)
    (isoformat : Time → String) (broker : Broker Q) where
  abbrev submit_and_publish :
      Submission → Time → Time → System O Q → Response ImportJob × System O Q
  submit_and_publish request now at system =
      after_submission broker
        (submit_inventory_import settings client isoformat request now system.database
          system.objects)
        at system

  unfoldable pub import_supplier_a_inventory :
      Bytes → String → Option String → Time → Time → System O Q → Response ImportJob × System O Q
  unfolding after_submission
  import_supplier_a_inventory content idempotency_key correlation_id now at system =
      submit_and_publish (supplier_a_request ext content idempotency_key correlation_id) now at
        system

  -- `file.read(n)` takes n bytes at most.
  unfoldable pub import_supplier_b_inventory :
      Upload → String → Option String → Time → Time → System O Q → Response ImportJob × System O Q
  unfolding after_submission
  import_supplier_b_inventory file idempotency_key correlation_id now at system =
      let content = take (suc max_csv_bytes) file.content in
      if ltb max_csv_bytes (length content)
      then (refused (status_of domain_validation), system)
      else submit_and_publish (supplier_b_request ext content file idempotency_key correlation_id)
          now at system

  unfoldable pub replay_failed :
      Uuid → String → Time → Time → System O Q → Response ImportJob × System O Q
  unfolding after_submission
  replay_failed id idempotency_key now at system =
      after_submission broker
        (replay_failed_import settings ext client isoformat id idempotency_key now system.database
          system.objects)
        at system

module _ {ℓ} {O Q : Type ℓ} where
  unfoldable pub receive_carrier_c_event :
      CarrierCEvent → Time → System O Q → Response Shipment × System O Q
  unfolding process_carrier_event
  receive_carrier_c_event request now system =
      let (answer, db) = transact (process_carrier_event (adapt request) now) system.database in
      (respond 201 answer, record system { database = db })

  -- `IdempotencyKey`: a missing or malformed key does not reach the function.
  abbrev with_key {κ} :
      {A : Type κ}
      → Option String
      → (String → System O Q → Response A × System O Q)
      → System O Q
      → Response A × System O Q
  with_key none route system = (refused 422, system)
  with_key (some key) route system =
      if is_idempotency_key key then route key system else (refused 422, system)

  -- `require_partner_token` runs before the key is tested.
  unfoldable pub guarded {κ} :
      {A : Type κ}
      → String
      → Option String
      → Option String
      → (String → System O Q → Response A × System O Q)
      → System O Q
      → Response A × System O Q
  guarded expected token idempotency_key route system =
      elim (require_partner_token expected token) [
        | some status ↦ (refused status, system)
        | none ↦ with_key idempotency_key route system
      ]
