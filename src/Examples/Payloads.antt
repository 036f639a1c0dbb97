-- ===== src/Examples/Payloads.antt =====
-- The theorems on stored payloads and on the adapters, at small payloads.
use supply_chain_integration.Base.{
  ◌+◌, ◌≡◌, refl, String, Option, some, none, [], ◌∷◌, find, select, any, length, eq_iff, arith,
  if◌then◌else◌,
}
use supply_chain_integration.Domain.Decimal.{thousandths}
use supply_chain_integration.Domain.Errors.{ok}
use supply_chain_integration.Objects.{IsFaithful, put, get, put-size}
use supply_chain_integration.Objects.Keys.{build_raw_object_key, build_raw_object_key-injective}
use supply_chain_integration.Partners.SupplierB.{
  CsvTable, Validation, valid, invalid, file_error, clean_row, missing_headers, required_headers,
  adapt_table,
}
use supply_chain_integration.Partners.Coverage.{
  none_missing, is_invalid, records_of, errors_of, adapt_table_lem, adapt_table-length,
}
use supply_chain_integration.Store.Rows.{Bytes, Json}
use supply_chain_integration.Imports.Payload.{
  Externals, load_import_payload, load_import_payload-sha256, load_import_payload-put,
}
use supply_chain_integration.Examples.{Objects, client, isoformat, request, stored, queued}

abbrev sha256 : Bytes → String
sha256 content = "abc"

-- The second row has a bad date.
abbrev first_cell : Json → Option String
first_cell [] = none
first_cell ((key, text) ∷ cells) = some text

abbrev validate : Json → Validation
validate cells = elim (first_cell cells) [
  | none ↦ invalid ("snapshot_ref" ∷ [])
  | some text ↦ valid (record {
    snapshot_ref = text;
    as_of = 5;
    partner_sku = "SKU";
    depot = "NORTH";
    case_count = thousandths 2000;
    units_per_case = thousandths 12000;
  })
]

abbrev decode : Bytes → Option CsvTable
decode content = none

abbrev table : CsvTable
table = record {
  fieldnames = some required_headers;
  rows = ((some "snapshot_ref", "S1") ∷ []) ∷ ((none, "extra") ∷ []) ∷ [];
}

abbrev ext : Externals
ext = record {
  sha256 = sha256;
  validate_json = λ content. none;
  model_dump = λ item. [];
  decode_csv = decode;
  validate_row = validate;
}

abbrev one_object : Objects
one_object = (stored.key, 1 ∷ 2 ∷ 3 ∷ []) ∷ []

load_import_payload-sha256_example : sha256 (1 ∷ 2 ∷ 3 ∷ []) ≡ "abc"
unfolding load_import_payload get find any
load_import_payload-sha256_example =
    load_import_payload-sha256 ext client queued one_object (1 ∷ 2 ∷ 3 ∷ []) refl

client-IsFaithful : IsFaithful client
unfolding find
client-IsFaithful = record {
  head_after_put = λ key content o size done head. ground (arith, eq_iff key key);
  get_after_put = λ key content found o done got. ground (arith, eq_iff key key);
}

load_import_payload-put_example :
    load_import_payload ext client queued (put client stored.key (1 ∷ 2 ∷ 3 ∷ []) []).1
    ≡ ok (1 ∷ 2 ∷ 3 ∷ [])
unfolding put find
load_import_payload-put_example =
    load_import_payload-put ext client queued stored.key (1 ∷ 2 ∷ 3 ∷ []) (1 ∷ 2 ∷ 3 ∷ []) [] stored
      client-IsFaithful refl refl refl refl

put-size_example : (stored.key ≡ stored.key) × (stored.size_bytes ≡ 3)
unfolding put find
put-size_example = put-size client stored.key (1 ∷ 2 ∷ 3 ∷ []) [] stored refl

build_raw_object_key-injective_example : request.content_sha256 ≡ request.content_sha256
unfolding build_raw_object_key
build_raw_object_key-injective_example =
    build_raw_object_key-injective isoformat request.source_type request.content_sha256
      request.content_sha256 none (some 7) 100 200 refl refl

adapt_table_lem_example : adapt_table decode validate table ≡ (
    if none_missing table.fieldnames
    then record {
      records = records_of decode validate 2 table.rows;
      errors = errors_of decode validate 2 table.rows;
    }
    else record { records = []; errors = file_error "missing_csv_headers" ∷ [] })
adapt_table_lem_example = adapt_table_lem decode validate table

adapt_table-length_example :
    length (adapt_table decode validate table).records
      + length (select (λ raw. is_invalid (validate (clean_row raw))) table.rows)
    ≡ 2
unfolding missing_headers select any
adapt_table-length_example = adapt_table-length decode validate table refl
