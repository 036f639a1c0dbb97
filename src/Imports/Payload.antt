-- ===== src/Imports/Payload.antt =====
-- `_load_import_payload` and `_adapt_retained_payload` of integration_services.py. The digest of
-- hashlib and the validation of a JSON payload by Pydantic are parameters.
use supply_chain_integration.Base.{
  String, Option, none, some, not, ◌≡◌, str_eq, if◌then◌else◌, arith, eq_iff,
}
use supply_chain_integration.Domain.Enums.{ImportSourceType}
use supply_chain_integration.Domain.Errors.{
  Result, ok, err, permanent_import, transient_import, other_error, ◌>>=◌,
}
use supply_chain_integration.Objects.{
  body, StoredObject, put, put-size, IsFaithful, S3Client, Answer, value, object_not_found,
  storage_error, get,
}
use supply_chain_integration.Partners.Canonical.{InventoryAdapterResult}
use supply_chain_integration.Partners.SupplierA
use supply_chain_integration.Partners.SupplierA.{SupplierAInventoryItem, SupplierAInventoryPayload}
use supply_chain_integration.Partners.SupplierB
use supply_chain_integration.Partners.SupplierB.{CsvTable, Validation}
use supply_chain_integration.Store.Rows.{Bytes, Json}
use supply_chain_integration.Store.Rows.Imports.{ImportJob}

-- What the import takes from libraries that are not part of the repository.
pub record Externals : Type 0 where
  -- `sha256(content).hexdigest()`
  pub sha256 : Bytes → String
  -- `SupplierAInventoryPayload.model_validate_json`; `none` is a `ValidationError`
  pub validate_json : Bytes → Option SupplierAInventoryPayload
  pub model_dump : SupplierAInventoryItem → Json
  -- decoding as "utf-8-sig" and `csv.DictReader`; `none` is a `UnicodeDecodeError`
  pub decode_csv : Bytes → Option CsvTable
  -- `SupplierBInventoryRow.model_validate`
  pub validate_row : Json → Validation

module _ {ℓ} {O : Type ℓ} (ext : Externals) (client : S3Client O) where
  -- The object store's failures: an object that is missing is permanent, all else can be retried.
  abbrev or_import_error : Answer Bytes → Result Bytes
  or_import_error (value content) = ok content
  or_import_error object_not_found = err permanent_import
  or_import_error storage_error = err transient_import

  -- The payload comes from the object store where the job has a key, else from its own row.
  pub retained_payload : ImportJob → Option String → Option Bytes → O → Result Bytes
  retained_payload job (some key) payload objects = or_import_error (get client key objects)
  retained_payload job none (some content) objects = ok content
  retained_payload job none none objects = err permanent_import

  pub verified : String → Bytes → Result Bytes
  verified expected content =
      if not (str_eq (ext.sha256 content) expected) then err permanent_import else ok content

  unfoldable pub load_import_payload : ImportJob → O → Result Bytes
  unfolding retained_payload verified
  load_import_payload job objects = do
    content ← retained_payload job job.payload_object_key job.payload objects
    verified job.content_sha256 content

  abbrev or_validation_error : Option SupplierAInventoryPayload → Result InventoryAdapterResult
  or_validation_error none = err other_error
  or_validation_error (some payload) = ok (SupplierA.adapt ext.model_dump payload)

  -- Both source types have an adapter, so the error for an unknown one cannot be raised.
  pub adapt_payload : ImportSourceType → Bytes → Result InventoryAdapterResult
  adapt_payload ImportSourceType.supplier_a_json content =
      or_validation_error (ext.validate_json content)
  adapt_payload ImportSourceType.supplier_b_csv content =
      ok (SupplierB.adapt ext.decode_csv ext.validate_row content)

  unfoldable pub adapt_retained_payload : ImportJob → O → Result InventoryAdapterResult
  unfolding load_import_payload adapt_payload
  adapt_retained_payload job objects = do
    content ← load_import_payload job objects
    adapt_payload job.source_type content

  -- A payload that is loaded, from whichever place, has the checksum that was recorded for the job.
  pub load_import_payload-sha256 :
      (job : ImportJob) (objects : O) (content : Bytes)
      → load_import_payload job objects ≡ ok content
      → ext.sha256 content ≡ job.content_sha256
  unfolding load_import_payload
  load_import_payload-sha256 job objects content h =
      ground (arith, eq_iff (ext.sha256 content) job.content_sha256)

  -- Where the client of the object store keeps what it is given, a payload that was put under a key
  -- comes back for a job that has that key and the checksum of the payload, as long as the client
  -- returns a body for the key.
  pub load_import_payload-put :
      (job : ImportJob) (key : String) (content found : Bytes) (objects : O) (stored : StoredObject)
      → IsFaithful client
      → (put client key content objects).0 ≡ value stored
      → job.payload_object_key ≡ some stored.key
      → client.get_object key (put client key content objects).1 ≡ body found
      → ext.sha256 content ≡ job.content_sha256
      → load_import_payload job (put client key content objects).1 ≡ ok content
  unfolding load_import_payload put get
  load_import_payload-put job key content found objects stored faithful kept owner there digest =
      ground (
        arith,
        put-size client key content objects stored kept,
        faithful.get_after_put key content found objects,
        eq_iff (ext.sha256 content) job.content_sha256,
      )
