-- ===== src/Imports/Soundness/Consistency.antt =====
-- The constraints of the database under the writes of the import services.
use supply_chain_integration.Base.{ℕ, List, true, ◌≡◌, unique, every}
use supply_chain_integration.Store.Rows.Imports.{
  ImportJob, ImportAttempt, ImportJobError, OperationEvent,
}
use supply_chain_integration.Store.Db.{Db}
use supply_chain_integration.Store.Constraints.{
  IsConsistent, same_submission, job_checks, same_attempt, attempt_checks,
}

-- Only jobs, attempts and the two tables without constraints have changed.
abbrev pub with_imports :
    Db → ℕ → List ImportJob → List ImportAttempt → List ImportJobError → List OperationEvent → Db
with_imports db next_id jobs attempts job_errors events = record db {
  next_id = next_id;
  jobs = jobs;
  attempts = attempts;
  job_errors = job_errors;
  events = events;
}

pub with_imports-IsConsistent :
    (db : Db) (n : ℕ) (jobs : List ImportJob) (attempts : List ImportAttempt)
    (job_errors : List ImportJobError) (events : List OperationEvent)
    → IsConsistent db
    → unique same_submission jobs ≡ true
    → every job_checks jobs ≡ true
    → unique same_attempt attempts ≡ true
    → every attempt_checks attempts ≡ true
    → IsConsistent (with_imports db n jobs attempts job_errors events)
with_imports-IsConsistent db n jobs attempts es events c a b d e = record {
  suppliers = c.suppliers;
  products = c.products;
  warehouses = c.warehouses;
  positions = c.positions;
  position_values = c.position_values;
  product_mappings = c.product_mappings;
  product_mapping_values = c.product_mapping_values;
  warehouse_mappings = c.warehouse_mappings;
  warehouse_mapping_values = c.warehouse_mapping_values;
  orders = c.orders;
  order_values = c.order_values;
  shipments = c.shipments;
  shipment_events = c.shipment_events;
  jobs = a;
  job_values = b;
  attempts = d;
  attempt_values = e;
  snapshots = c.snapshots;
  snapshot_values = c.snapshot_values;
}
