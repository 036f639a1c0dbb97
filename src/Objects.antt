-- ===== src/Objects.antt =====
-- infrastructure/object_storage.py: the S3 object store. The client of the boto3 library is a
-- parameter, with its documented behaviour as a record of laws.
pub mod Keys
use supply_chain_integration.Base.{
  ℕ, String, Option, none, some, List, [], ◌∷◌, Bool, ◌≡◌, ◌==◌, str_eq, any, length, if◌then◌else◌,
  arith, refl,
}
use supply_chain_integration.Store.Rows.{Bytes}

-- The outcome of the client's `get_object`.
pub data Reply : Type 0 where
  body : Bytes → Reply
  client_error : String → Reply
  botocore_error : Reply

-- The state of the bucket is an `O`. `put_object` and `head_object` give `none` where the client
-- raises; a `put_object` that raises may have changed the bucket or not.
pub record S3Client {ℓ} (O : Type ℓ) : Type ℓ where
  pub put_object : String → Bytes → O → Bool × O
  pub head_object : String → O → Option ℕ
  pub get_object : String → O → Reply

-- A key that was put holds that body, until the store cannot be reached.
pub record IsFaithful {ℓ} {O : Type ℓ} (c : S3Client O) : Type ℓ where
  pub head_after_put :
      (key : String) (content : Bytes) (o : O) (size : ℕ)
      → (c.put_object key content o).0 ≡ Bool.true
      → c.head_object key (c.put_object key content o).1 ≡ some size
      → size ≡ length content
  pub get_after_put :
      (key : String) (content found : Bytes) (o : O)
      → (c.put_object key content o).0 ≡ Bool.true
      → c.get_object key (c.put_object key content o).1 ≡ body found
      → found ≡ content

pub record StoredObject : Type 0 where
  pub key : String
  pub size_bytes : ℕ

-- The result of a store operation that may raise `ObjectNotFoundError` or `ObjectStorageError`.
pub data Answer (A : Type 0) : Type 0 where
  value : A → Answer A
  object_not_found : Answer A
  storage_error : Answer A

abbrev not_found_codes : List String
not_found_codes = "NoSuchKey" ∷ "404" ∷ "NotFound" ∷ []

module _ {ℓ} {O : Type ℓ} (c : S3Client O) where
  -- The size that the store reports is compared with what was sent.
  pub checked_size : String → Bytes → Option ℕ → Answer StoredObject
  checked_size key content none = storage_error
  checked_size key content (some size) =
      if size == length content
      then value (record { key = key; size_bytes = size })
      else storage_error

  unfoldable pub put : String → Bytes → O → Answer StoredObject × O
  unfolding checked_size
  put key content o =
      let (done, o') = c.put_object key content o in
      (if done then checked_size key content (c.head_object key o') else storage_error, o')

  pub answer : Reply → Answer Bytes
  answer (body content) = value content
  answer (client_error code) =
      if any (str_eq code) not_found_codes then object_not_found else storage_error
  answer botocore_error = storage_error

  unfoldable pub get : String → O → Answer Bytes
  unfolding answer any
  get key o = answer (c.get_object key o)

-- A successful `put` reports the key it was given and the number of bytes that were sent.
pub put-size {ℓ} :
    {O : Type ℓ} (c : S3Client O) (key : String) (content : Bytes) (o : O) (stored : StoredObject)
    → (put c key content o).0 ≡ value stored
    → (stored.key ≡ key) × (stored.size_bytes ≡ length content)
unfolding put
put-size c key content o stored h = ground arith
