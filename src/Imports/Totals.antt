-- ===== src/Imports/Totals.antt =====
-- `_apply_inventory_result` of integration_services.py: the loop over the canonical records, the
-- errors of the job, and the totals that the job reports.
use supply_chain_integration.Base.{
  ℕ, suc, ◌+◌, Option, none, some, Bool, List, [], ◌∷◌, ◌++◌, ◌==◌, is_none, any, select,
  if◌then◌else◌,
}
use supply_chain_integration.Partners.Canonical.{
  CanonicalInventoryRecord, AdapterError, InventoryAdapterResult,
}
use supply_chain_integration.Store.Rows.{Uuid, Time}
use supply_chain_integration.Store.Rows.Imports.{ImportJob, ImportJobError}
use supply_chain_integration.Store.Db.{Db}
use supply_chain_integration.Store.Session.{Tx, branch, pure, gets, modify, fresh_id, ◌>>=◌, ◌>>◌}
use supply_chain_integration.Imports.Jobs.{set_job}
use supply_chain_integration.Imports.Apply.{
  SourceKey, source_key, already_imported, record_error, Check, rejected, accepted, check_mappings,
  apply_record,
}

abbrev error_row : Uuid → Uuid → AdapterError → Time → ImportJobError
error_row id job_id e now = record {
  id = id;
  import_job_id = job_id;
  source_row = e.source_row;
  error_code = e.code;
  field_name = e.field_name;
  raw_fragment = e.raw_fragment;
  created_at = now;
}

-- `_add_import_error`
unfoldable pub add_import_error : Uuid → Time → AdapterError → Tx (Unit {0})
add_import_error job_id now e = do
  id ← fresh_id
  modify (λ db. record db { job_errors = db.job_errors ++ error_row id job_id e now ∷ [] })

unfoldable pub add_import_errors : Uuid → Time → List AdapterError → Tx (Unit {0})
unfolding add_import_error
add_import_errors job_id now [] = pure tt
add_import_errors job_id now (e ∷ es) = do
  add_import_error job_id now e
  add_import_errors job_id now es

unfoldable pub apply_check :
    ImportJob → Uuid → CanonicalInventoryRecord → Check → Tx (Option AdapterError)
unfolding apply_record
apply_check job supplier_id r (rejected e) = pure (some e)
apply_check job supplier_id r (accepted product_mapping warehouse_mapping) = do
  apply_record job supplier_id r product_mapping warehouse_mapping
  pure none

-- `_validate_and_apply_record`: the error, if there is one, and the set of keys that were seen. A
-- key counts as seen from here on also where a later test rejects the record.
unfoldable pub validate_and_apply_record :
    ImportJob
    → Uuid
    → CanonicalInventoryRecord
    → List SourceKey
    → Tx (Option AdapterError × List SourceKey)
unfolding apply_check already_imported check_mappings
validate_and_apply_record job supplier_id r seen db =
    branch (already_imported supplier_id r seen db)
      (pure (some (record_error r "duplicate_source_record" none), seen))
      (do
        e ← apply_check job supplier_id r (check_mappings supplier_id r db)
        pure (e, source_key r ∷ seen))
      db

-- An accepted record is counted, a rejected one becomes an error of the job.
unfoldable pub tally : Uuid → Time → Option AdapterError → ℕ → Tx ℕ
unfolding add_import_error
tally job_id now none count = pure (count + 1)
tally job_id now (some e) count = do add_import_error job_id now e; pure count

-- The loop over the records, from the keys seen and the records accepted so far.
unfoldable pub apply_records :
    ImportJob → Uuid → Time → List CanonicalInventoryRecord → List SourceKey → ℕ → Tx ℕ
unfolding validate_and_apply_record tally
apply_records job supplier_id now [] seen count = pure count
apply_records job supplier_id now (r ∷ rs) seen count = do
  (e, seen') ← validate_and_apply_record job supplier_id r seen
  count' ← tally job.id now e count
  apply_records job supplier_id now rs seen' count'

-- `{error.source_row for error in job.errors if error.source_row is not None}`
unfoldable pub error_rows : List ImportJobError → List ℕ
error_rows [] = []
error_rows (e ∷ es) = elim e.source_row [ none ↦ error_rows es | some row ↦ row ∷ error_rows es ]

-- The number of elements of the set that a list of numbers has.
unfoldable pub count_distinct : List ℕ → ℕ
unfolding any
count_distinct [] = 0
count_distinct (n ∷ ns) =
    let rest = count_distinct ns in if any (λ m. m == n) ns then rest else suc rest

abbrev as_int : Bool → ℕ
as_int b = if b then 1 else 0

-- `rejected` from the errors of the job.
unfoldable pub count_rejected : List ImportJobError → ℕ
unfolding error_rows count_distinct any
count_rejected es = count_distinct (error_rows es) + as_int (any (λ e. is_none e.source_row) es)

abbrev pub errors_of : Uuid → Db → List ImportJobError
errors_of job_id db = select (λ e. e.import_job_id == job_id) db.job_errors

abbrev pub with_totals : ℕ → ℕ → ImportJob → ImportJob
with_totals accepted_records rejected_records job = record job {
  total_records = accepted_records + rejected_records;
  accepted_records = accepted_records;
  rejected_records = rejected_records;
}

-- Returns the numbers of accepted and of rejected records, which the job now reports.
unfoldable pub apply_inventory_result :
    ImportJob → Uuid → InventoryAdapterResult → Time → Tx (ℕ × ℕ)
unfolding add_import_errors apply_records count_rejected
apply_inventory_result job supplier_id result now = do
  add_import_errors job.id now result.errors
  accepted_records ← apply_records job supplier_id now result.records [] 0
  rejected_records ← gets (λ db. count_rejected (errors_of job.id db))
  modify (set_job job.id (with_totals accepted_records rejected_records))
  pure (accepted_records, rejected_records)
