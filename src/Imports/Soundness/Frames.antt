-- ===== src/Imports/Soundness/Frames.antt =====
-- What the application of records leaves alone: the jobs and their attempts.
use supply_chain_integration.Base.{
  ℕ, ◌+◌, ◌≤◌, ◌≡◌, refl, ◌∙◌, Bool-cases, inl, inr, Option, some, none, List, [], ◌∷◌, arith,
}
use supply_chain_integration.Domain.Decimal.{Decimal}
use supply_chain_integration.Domain.Errors.{Result, ok, err}
use supply_chain_integration.Partners.Canonical.{CanonicalInventoryRecord, AdapterError}
use supply_chain_integration.Store.Rows.{Uuid, Time}
use supply_chain_integration.Store.Rows.Catalog.{
  InventoryPosition, SupplierProductMapping, SupplierWarehouseMapping,
}
use supply_chain_integration.Store.Rows.Imports.{ImportJob}
use supply_chain_integration.Store.Db.{Db}
use supply_chain_integration.Store.Session.{Tx, flush, pure, ◌>>=◌}
use supply_chain_integration.Imports.Apply.{
  SourceKey, source_key, Check, rejected, accepted, upsert_position, apply_record, check_mappings,
  already_imported,
}
use supply_chain_integration.Imports.Totals.{
  add_import_error, add_import_errors, apply_check, validate_and_apply_record, tally, apply_records,
}

pub record IsFramed (db db' : Db) : Type 0 where
  pub jobs : db'.jobs ≡ db.jobs
  pub attempts : db'.attempts ≡ db.attempts
  pub grows : db.next_id ≤ db'.next_id

IsFramed-refl : (db : Db) → IsFramed db db
IsFramed-refl db = record { jobs = refl; attempts = refl; grows = ground arith }

pub IsFramed-trans : (a b c : Db) → IsFramed a b → IsFramed b c → IsFramed a c
IsFramed-trans a b c f g = record {
  jobs = g.jobs ∙ f.jobs;
  attempts = g.attempts ∙ f.attempts;
  grows = ground (arith, f.grows, g.grows);
}

-- Every normal end of an action leaves the jobs and the attempts as they were.
abbrev pub Frames {ℓ} : {A : Type ℓ} → Tx A → Type ℓ
Frames {A = A} m = (db db' : Db) (a : A) → m db ≡ ok (a, db') → IsFramed db db'

-- What has happened when two actions have both ended normally.
pub both_return {ℓ κ} :
    {A : Type ℓ} {B : Type κ} (r : Result (A × Db)) (k : A → Tx B) (db db' : Db) (b : B)
    → ((λ start. r) >>= k) db ≡ ok (b, db')
    → (a : A) × (mid : Db) × (r ≡ ok (a, mid)) × (k a mid ≡ ok (b, db'))
both_return (ok (a, mid)) k db db' b h = (a, mid, refl, h)
both_return (err e) k db db' b h = cc

pub Frames-bind {ℓ κ} :
    {A : Type ℓ} {B : Type κ} (m : Tx A) (k : A → Tx B)
    → Frames m
    → ((a : A) → Frames (k a))
    → Frames (m >>= k)
Frames-bind m k f g db db' b h =
    let (a, mid, done, rest) = both_return (m db) k db db' b h in
    IsFramed-trans db mid db' (f db mid a done) (g a mid db' b rest)

add_import_error-Frames :
    (job_id : Uuid) (now : Time) (e : AdapterError) → Frames (add_import_error job_id now e)
unfolding add_import_error
add_import_error-Frames job_id now e db db' a h = ground arith

pub add_import_errors-Frames :
    (job_id : Uuid) (now : Time) (es : List AdapterError) → Frames (add_import_errors job_id now es)
unfolding add_import_errors
add_import_errors-Frames job_id now [] = λ db db' a h. ground arith
add_import_errors-Frames job_id now (e ∷ es) =
    Frames-bind (add_import_error job_id now e) (λ done. add_import_errors job_id now es)
      (add_import_error-Frames job_id now e) (λ done. add_import_errors-Frames job_id now es)

upsert_position-Frames :
    (warehouse_id product_id : Uuid) (on_hand reserved : Decimal) (p : Option InventoryPosition)
    → Frames (upsert_position warehouse_id product_id on_hand reserved p)
unfolding upsert_position
upsert_position-Frames w p a b none db db' r h = ground arith
upsert_position-Frames w p a b (some position) db db' r h = ground arith

apply_record-Frames :
    (job : ImportJob) (supplier_id : Uuid) (r : CanonicalInventoryRecord)
    (pm : SupplierProductMapping) (wm : SupplierWarehouseMapping)
    → Frames (apply_record job supplier_id r pm wm)
unfolding apply_record flush upsert_position
apply_record-Frames job supplier_id r pm wm db db' a h = ground arith

pub pure-Frames {ℓ} : {A : Type ℓ} (a : A) → Frames (pure a)
pure-Frames a db db' b h = ground arith

apply_check-Frames :
    (job : ImportJob) (supplier_id : Uuid) (r : CanonicalInventoryRecord) (check : Check)
    → Frames (apply_check job supplier_id r check)
unfolding apply_check
apply_check-Frames job supplier_id r (rejected e) = pure-Frames (some e)
apply_check-Frames job supplier_id r (accepted pm wm) =
    Frames-bind (apply_record job supplier_id r pm wm) (λ done. pure none)
      (apply_record-Frames job supplier_id r pm wm) (λ done. pure-Frames none)

tally-Frames :
    (job_id : Uuid) (now : Time) (e : Option AdapterError) (count : ℕ)
    → Frames (tally job_id now e count)
unfolding tally
tally-Frames job_id now none count = pure-Frames (count + 1)
tally-Frames job_id now (some e) count =
    Frames-bind (add_import_error job_id now e) (λ done. pure count)
      (add_import_error-Frames job_id now e) (λ done. pure-Frames count)

validate_and_apply_record-Frames :
    (job : ImportJob) (supplier_id : Uuid) (r : CanonicalInventoryRecord) (seen : List SourceKey)
    → Frames (validate_and_apply_record job supplier_id r seen)
unfolding validate_and_apply_record
validate_and_apply_record-Frames job supplier_id r seen db db' a h =
    elim (Bool-cases (already_imported supplier_id r seen db)) [
      | inl e ↦ pure-Frames _ db db' a (rw e at h)
      | inr e ↦
          Frames-bind (apply_check job supplier_id r (check_mappings supplier_id r db))
            (λ e. pure (e, source_key r ∷ seen))
            (apply_check-Frames job supplier_id r (check_mappings supplier_id r db))
            (λ e. pure-Frames (e, source_key r ∷ seen)) db db' a (rw e at h)
    ]

pub apply_records-Frames :
    (job : ImportJob) (supplier_id : Uuid) (now : Time) (rs : List CanonicalInventoryRecord)
    (seen : List SourceKey) (count : ℕ)
    → Frames (apply_records job supplier_id now rs seen count)
unfolding apply_records
apply_records-Frames job supplier_id now [] seen count = pure-Frames count
apply_records-Frames job supplier_id now (r ∷ rs) seen count =
    Frames-bind (validate_and_apply_record job supplier_id r seen) _
      (validate_and_apply_record-Frames job supplier_id r seen)
      (λ result.
        Frames-bind (tally job.id now result.0 count) _ (tally-Frames job.id now result.0 count)
          (λ count'. apply_records-Frames job supplier_id now rs result.1 count'))
