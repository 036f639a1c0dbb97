-- ===== src/Examples/Steps.antt =====
-- The theorems on whole transactions and on sequences of them, at a job with one item.
use supply_chain_integration.Base.{
  ◌≡◌, ◌==◌, refl, Option, some, none, List, [], ◌∷◌, true, false, is_none, find, select, any,
  every, unique, update, arith,
}
use supply_chain_integration.Domain.Decimal.{thousandths, times}
use supply_chain_integration.Domain.Enums.{UnitOfMeasure}
use supply_chain_integration.Domain.Errors.{Result, ok, err}
use supply_chain_integration.Settings.{default_settings}
use supply_chain_integration.Objects.{put, get}
use supply_chain_integration.Objects.Keys.{build_raw_object_key}
use supply_chain_integration.Partners.Canonical.{CanonicalInventoryRecord, AdapterError}
use supply_chain_integration.Partners.SupplierA.{adapt, SupplierAInventoryPayload}
use supply_chain_integration.Partners.SupplierB.{invalid}
use supply_chain_integration.Store.Rows.{Uuid}
use supply_chain_integration.Store.Rows.Imports.{ImportJob}
use supply_chain_integration.Store.Db.{Db}
use supply_chain_integration.Store.Constraints.{IsConsistent, constraints_hold}
use supply_chain_integration.Store.Session.{flush, commit_or_conflict}
use supply_chain_integration.Imports.Jobs.{
  find_current_attempt, find_job, get_import_job, get_current_attempt, set_job, set_attempt,
  get_supplier_by_code, record_import_event,
}
use supply_chain_integration.Imports.Queue.{
  submit_for, queue_job, find_submission, submit_inventory_import, mark_job_dispatched,
}
use supply_chain_integration.Imports.Payload.{
  Externals, adapt_retained_payload, load_import_payload,
}
use supply_chain_integration.Imports.Apply.{
  source_key, check_mappings, check_units, apply_record, upsert_position, SourceKey,
  already_imported,
}
use supply_chain_integration.Imports.Totals.{
  apply_inventory_result, add_import_errors, apply_records, apply_check, tally, count_rejected,
  error_rows, count_distinct, validate_and_apply_record,
}
use supply_chain_integration.Imports.Applied.{Effect, validate_and_apply_record_lem}
use supply_chain_integration.Imports.Execute.{process_job, complete_job, finish_job}
use supply_chain_integration.Imports.Soundness.{IsSound, has_completed}
use supply_chain_integration.Imports.Soundness.Claim.{
  claim_db, claim_db-IsConsistent, claim_db-IsSound,
}
use supply_chain_integration.Imports.Soundness.Dispatch.{
  dispatch_result, mark_job_dispatched-IsSound,
}
use supply_chain_integration.Imports.Soundness.Keeps.{IsFramed-IsSound}
use supply_chain_integration.Imports.Soundness.Finish.{process_job-IsSound}
use supply_chain_integration.Imports.Steps.{submit, here, next}
use supply_chain_integration.Imports.Steps.Preservation.{IsValid}
use supply_chain_integration.Imports.Steps.Execution.{Reach-IsValid}
use supply_chain_integration.Examples.{
  Objects, client, isoformat, request, stored, default_range, one_supplier,
  one_supplier-IsConsistent, one_supplier-IsSound, queued_db, queued, queued_db-IsConsistent,
  queued_db-IsSound,
}

abbrev pub claimed_db : Db
claimed_db = claim_db default_settings 200 "worker" none queued queued_db

pub claimed_db-IsConsistent : IsConsistent claimed_db
unfolding find_job find
claimed_db-IsConsistent =
    claim_db-IsConsistent default_settings 200 "worker" none queued queued_db
      (queued_db-IsSound.at 1 queued refl) queued_db-IsConsistent

pub claimed_db-IsSound : IsSound claimed_db
unfolding find_job find
claimed_db-IsSound =
    claim_db-IsSound default_settings 200 "worker" none 1 queued queued_db refl refl
      queued_db-IsSound

mark_job_dispatched-IsSound_example :
    (db' : Db) × (mark_job_dispatched 1 150 queued_db ≡ ok (dispatch_result 150 queued, db'))
    × (find_job 1 db' ≡ some (dispatch_result 150 queued))
    × ((id' : Uuid) → (id' == 1) ≡ false → find_job id' db' ≡ find_job id' queued_db)
    × IsConsistent db'
    × IsSound db'
unfolding find_job find
mark_job_dispatched-IsSound_example =
    mark_job_dispatched-IsSound 1 queued 150 queued_db queued_db-IsConsistent queued_db-IsSound refl

abbrev payload : SupplierAInventoryPayload
payload = record {
  snapshot_id = "SNAP";
  captured_at = 50;
  items =
      record {
        item_number = "SKU";
        location = "NORTH";
        on_hand = thousandths 5000;
        allocated = thousandths 1000;
        unit = UnitOfMeasure.case;
      }
      ∷ [];
}

abbrev ext : Externals
ext = record {
  sha256 = λ content. "abc";
  validate_json = λ content. some payload;
  model_dump = λ item. [];
  decode_csv = λ content. none;
  validate_row = λ cells. invalid [];
}

abbrev objects : Objects
objects = (stored.key, 1 ∷ 2 ∷ 3 ∷ []) ∷ []

abbrev end_of : {A : Type 0} → Result (A × Db) → Db
end_of (ok (a, db)) = db
end_of (err e) = one_supplier

abbrev value_of : {A : Type 0} → A → Result (A × Db) → A
value_of a (ok (b, db)) = b
value_of a (err e) = a

abbrev mapped_db : Db
mapped_db = record claimed_db {
  product_mappings =
      record {
        id = 20;
        supplier_id = 0;
        external_sku = "SKU";
        product_id = 4;
        source_unit = UnitOfMeasure.case;
        units_per_source_unit = thousandths 12000;
        version = 1;
        active = true;
      }
      ∷ [];
  warehouse_mappings =
      record {
        id = 21;
        supplier_id = 0;
        external_location = "NORTH";
        warehouse_id = 6;
        version = 1;
        active = true;
      }
      ∷ [];
}

abbrev first_record : CanonicalInventoryRecord
first_record = record {
  source_reference = "SNAP";
  source_row = 1;
  external_sku = "SKU";
  external_location = "NORTH";
  observed_at = 50;
  source_unit = UnitOfMeasure.case;
  on_hand_quantity = thousandths 5000;
  reserved_quantity = thousandths 1000;
  units_per_source_unit = none;
  raw_fragment = [];
}

abbrev processed : Result (ImportJob × Db)
processed = process_job ext client 300 1 objects mapped_db

abbrev no_keys : List SourceKey
no_keys = []

abbrev no_error : Option AdapterError
no_error = none

abbrev validated : Result ((Option AdapterError × List SourceKey) × Db)
validated = validate_and_apply_record queued 0 first_record no_keys mapped_db

validate_and_apply_record_lem_example :
    Effect 0 first_record no_error mapped_db (end_of validated)
    × (is_none no_error ≡ true → already_imported 0 first_record no_keys mapped_db ≡ false)
unfolding validate_and_apply_record already_imported find any check_mappings check_units
    apply_record upsert_position flush constraints_hold unique every update times
validate_and_apply_record_lem_example =
    validate_and_apply_record_lem queued 0 first_record no_keys (source_key first_record ∷ [])
      no_error mapped_db (end_of validated) refl

Reach-IsValid_example : IsValid queued_db
unfolding submit_inventory_import get_supplier_by_code find_submission find put build_raw_object_key
    constraints_hold unique any every queue_job record_import_event commit_or_conflict submit_for
Reach-IsValid_example =
    Reach-IsValid default_settings ext client isoformat (λ error. "failed") one_supplier queued_db
      default_range
      (next one_supplier queued_db here (
        submit request 100 [] ((stored.key, request.content) ∷ []) (queued, true) one_supplier
          queued_db refl))
      (one_supplier-IsConsistent, one_supplier-IsSound)

mapped_db-IsSound : IsSound mapped_db
mapped_db-IsSound =
    IsFramed-IsSound claimed_db mapped_db
      (record { jobs = refl; attempts = refl; grows = ground arith }) claimed_db-IsSound

process_job-IsSound_example :
    (find_job 1 (end_of processed) ≡ some (value_of queued processed))
    × (has_completed (value_of queued processed).status ≡ true)
    × IsConsistent (end_of processed)
    × IsSound (end_of processed)
unfolding process_job get_import_job find_job find adapt_retained_payload load_import_payload get
    adapt complete_job record_import_event apply_inventory_result add_import_errors apply_records
    validate_and_apply_record already_imported any check_mappings check_units apply_check
    apply_record upsert_position flush constraints_hold unique every update times tally
    count_rejected error_rows count_distinct select set_job set_attempt get_current_attempt
    find_current_attempt finish_job
process_job-IsSound_example =
    process_job-IsSound ext client 300 1 objects mapped_db (end_of processed)
      (value_of queued processed) mapped_db-IsSound refl
