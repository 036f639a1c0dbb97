-- ===== src/Partners/SupplierB.antt =====
-- integrations/supplier_b.py: the CSV adapter of Supplier B. Decoding the bytes, splitting them
-- into rows by the csv module and validating one row by Pydantic are parameters.
use supply_chain_integration.Base.{
  ℕ, suc, String, Option, none, some, List, [], ◌∷◌, ◌++◌, Bool, true, false, not, map, any, select,
  str_eq, if◌then◌else◌,
}
use supply_chain_integration.Domain.Enums.{UnitOfMeasure}
use supply_chain_integration.Domain.Decimal.{Decimal, zero_quantity}
use supply_chain_integration.Partners.Canonical.{
  CanonicalInventoryRecord, AdapterError, InventoryAdapterResult,
}

-- What `csv.DictReader` yields: the header row, and for each data row its cells under the names of
-- the columns; a cell beyond the header has no name (`None`).
abbrev pub CsvRow : Type 0
CsvRow = List (Option String × String)

pub record CsvTable : Type 0 where
  pub fieldnames : Option (List String)
  pub rows : List CsvRow

pub record SupplierBInventoryRow : Type 0 where
  pub snapshot_ref : String
  pub as_of : ℕ
  pub partner_sku : String
  pub depot : String
  pub case_count : Decimal
  pub units_per_case : Decimal

-- A failed validation has a list of details, of which the adapter reads the location.
pub data Validation : Type 0 where
  valid : SupplierBInventoryRow → Validation
  invalid : List String → Validation

abbrev pub required_headers : List String
required_headers =
    "snapshot_ref" ∷ "as_of" ∷ "partner_sku" ∷ "depot" ∷ "case_count" ∷ "units_per_case" ∷ []

-- `set(reader.fieldnames or [])`
abbrev headers_of : Option (List String) → List String
headers_of none = []
headers_of (some names) = names

-- `REQUIRED_HEADERS - headers`
unfoldable pub missing_headers : Option (List String) → List String
unfolding select any
missing_headers fieldnames =
    select (λ name. not (any (str_eq name) (headers_of fieldnames))) required_headers

abbrev is_empty {ℓ} : {A : Type ℓ} → List A → Bool
is_empty [] = true
is_empty (x ∷ xs) = false

-- `{key: value for key, value in raw_row.items() if key is not None}`
unfoldable pub clean_row : CsvRow → List (String × String)
clean_row [] = []
clean_row ((none, value) ∷ row) = clean_row row
clean_row ((some key, value) ∷ row) = (key, value) ∷ clean_row row

abbrev pub file_error : String → AdapterError
file_error code = record { code = code; source_row = none; field_name = none; raw_fragment = none }

abbrev pub field_error : ℕ → List (String × String) → String → AdapterError
field_error source_row row field_name = record {
  code = "invalid_csv_field";
  source_row = some source_row;
  field_name = some field_name;
  raw_fragment = some row;
}

abbrev pub row_record :
    ℕ → List (String × String) → SupplierBInventoryRow → CanonicalInventoryRecord
row_record source_row clean row = record {
  source_reference = row.snapshot_ref;
  source_row = source_row;
  external_sku = row.partner_sku;
  external_location = row.depot;
  observed_at = row.as_of;
  source_unit = UnitOfMeasure.case;
  on_hand_quantity = row.case_count;
  reserved_quantity = zero_quantity;
  units_per_source_unit = some row.units_per_case;
  raw_fragment = clean;
}

module _ (decode : List ℕ → Option CsvTable) (validate : List (String × String) → Validation) where
  -- One iteration of the loop over the rows.
  unfoldable pub add_row :
      ℕ → List (String × String) → Validation → InventoryAdapterResult → InventoryAdapterResult
  add_row source_row clean (valid row) result = record result {
    records = result.records ++ row_record source_row clean row ∷ [];
  }
  add_row source_row clean (invalid details) result = record result {
    errors = result.errors ++ map (field_error source_row clean) details;
  }

  -- `enumerate(reader, start=2)`
  unfoldable pub add_rows : ℕ → List CsvRow → InventoryAdapterResult → InventoryAdapterResult
  unfolding add_row clean_row
  add_rows source_row [] result = result
  add_rows source_row (raw ∷ rows) result =
      let clean = clean_row raw in
      add_rows (suc source_row) rows (add_row source_row clean (validate clean) result)

  abbrev no_records : InventoryAdapterResult
  no_records = record { records = []; errors = [] }

  unfoldable pub adapt_table : CsvTable → InventoryAdapterResult
  unfolding add_rows missing_headers
  adapt_table table =
      if is_empty (missing_headers table.fieldnames)
      then add_rows 2 table.rows no_records
      else record { records = []; errors = file_error "missing_csv_headers" ∷ [] }

  unfoldable pub adapt : List ℕ → InventoryAdapterResult
  unfolding adapt_table
  adapt content = elim (decode content) [
    | none ↦ record { records = []; errors = file_error "invalid_file_encoding" ∷ [] }
    | some table ↦ adapt_table table
  ]
