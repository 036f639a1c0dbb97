-- ===== src/Partners/Coverage.antt =====
-- Every row of a partner's payload is accounted for, once and in order.
use mathlib.Core.List.{append-nil, append_assoc}
use supply_chain_integration.Base.{
  ℕ, suc, ◌+◌, ◌≡◌, refl, ◌∙◌, String, Option, List, [], ◌∷◌, ◌++◌, Bool, true, false, map, length,
  arith, select, if◌then◌else◌,
}
use supply_chain_integration.Partners.Canonical.{
  CanonicalInventoryRecord, AdapterError, InventoryAdapterResult,
}
use supply_chain_integration.Partners.SupplierB.{
  CsvRow, CsvTable, Validation, valid, invalid, clean_row, row_record, field_error, add_row,
  add_rows, adapt_table, file_error, missing_headers,
}

abbrev pub none_missing : Option (List String) → Bool
none_missing fieldnames = elim (missing_headers fieldnames) [ [] ↦ true | x ∷ xs ↦ false ]

abbrev pub is_invalid : Validation → Bool
is_invalid (valid row) = false
is_invalid (invalid details) = true

module _ (decode : List ℕ → Option CsvTable) (validate : List (String × String) → Validation) where
  -- The records of the valid rows, each with its line of the file.
  pub records_of : ℕ → List CsvRow → List CanonicalInventoryRecord
  records_of line [] = []
  records_of line (raw ∷ rows) = elim (validate (clean_row raw)) [
    | valid row ↦ row_record line (clean_row raw) row ∷ records_of (suc line) rows
    | invalid details ↦ records_of (suc line) rows
  ]

  -- The errors of the other rows: one for each detail, with the line and the cells of the row.
  pub errors_of : ℕ → List CsvRow → List AdapterError
  errors_of line [] = []
  errors_of line (raw ∷ rows) = elim (validate (clean_row raw)) [
    | valid row ↦ errors_of (suc line) rows
    | invalid details ↦ map (field_error line (clean_row raw)) details ++ errors_of (suc line) rows
  ]

  combined : InventoryAdapterResult → ℕ → List CsvRow → InventoryAdapterResult
  combined result line rows = record {
    records = result.records ++ records_of line rows;
    errors = result.errors ++ errors_of line rows;
  }

  row_lem :
      (line : ℕ) (raw : CsvRow) (rows : List CsvRow) (result : InventoryAdapterResult)
      (v : Validation)
      → validate (clean_row raw) ≡ v
      → combined (add_row decode validate line (clean_row raw) v result) (suc line) rows
        ≡ combined result line (raw ∷ rows)
  unfolding combined add_row records_of errors_of
  row_lem line raw rows result (valid row) e = ground (
    arith,
    append_assoc result.records (row_record line (clean_row raw) row ∷ [])
        (records_of (suc line) rows),
  )
  row_lem line raw rows result (invalid details) e = ground (
    arith,
    append_assoc result.errors (map (field_error line (clean_row raw)) details)
        (errors_of (suc line) rows),
  )

  add_rows_lem :
      (line : ℕ) (rows : List CsvRow) (result : InventoryAdapterResult)
      → add_rows decode validate line rows result ≡ combined result line rows
  unfolding combined add_rows add_row records_of errors_of
  add_rows_lem line [] result = ground (arith, append-nil result.records, append-nil result.errors)
  add_rows_lem line (raw ∷ rows) result =
      add_rows_lem (suc line) rows
        (add_row decode validate line (clean_row raw) (validate (clean_row raw)) result)
      ∙ row_lem line raw rows result (validate (clean_row raw)) refl

  -- A table with all the required headers becomes the records of its valid rows and the errors of
  -- its other rows, numbered from line 2, and any other table a single error and no record.
  pub adapt_table_lem :
      (table : CsvTable)
      → adapt_table decode validate table ≡ (
          if none_missing table.fieldnames
          then record { records = records_of 2 table.rows; errors = errors_of 2 table.rows }
          else record { records = []; errors = file_error "missing_csv_headers" ∷ [] })
  unfolding adapt_table combined
  adapt_table_lem table =
      ground (arith, add_rows_lem 2 table.rows (record { records = []; errors = [] }))

  -- Each line that is valid is a record and each other line is none.
  length-records_of :
      (line : ℕ) (rows : List CsvRow)
      → length (records_of line rows)
          + length (select (λ raw. is_invalid (validate (clean_row raw))) rows)
        ≡ length rows
  unfolding records_of select
  length-records_of line [] = refl
  length-records_of line (raw ∷ rows) = ground (arith, length-records_of (suc line) rows)

  -- When all the required headers are there, every row is either one record or invalid.
  pub adapt_table-length :
      (table : CsvTable)
      → none_missing table.fieldnames ≡ true
      → length (adapt_table decode validate table).records
          + length (select (λ raw. is_invalid (validate (clean_row raw))) table.rows)
        ≡ length table.rows
  adapt_table-length table complete =
      rw (adapt_table_lem table, complete) (length-records_of 2 table.rows)
