-- ===== src/Store/Rows/Imports.antt =====
-- models.py: import jobs, their attempts, their errors, the snapshots and the operation events.
use supply_chain_integration.Base.{ℕ, String, Bool, Option, List}
use supply_chain_integration.Domain.Enums.{
  ImportSourceType, ImportStatus, ImportAttemptStatus, UnitOfMeasure,
}
use supply_chain_integration.Domain.Decimal.{Decimal}

pub record ImportJob : Type 0 where
  pub id : ℕ
  pub supplier_id : ℕ
  pub source_type : ImportSourceType
  pub adapter_version : String
  pub original_filename : Option String
  pub content_sha256 : String
  pub content_type : String
  pub payload : Option (List ℕ)
  pub payload_object_key : Option String
  pub payload_size_bytes : Option ℕ
  pub idempotency_key : Option String
  pub correlation_id : Option String
  pub status : ImportStatus
  pub total_records : ℕ
  pub accepted_records : ℕ
  pub rejected_records : ℕ
  pub attempt_count : ℕ
  pub max_attempts : ℕ
  pub dispatched_at : Option ℕ
  pub started_at : Option ℕ
  pub completed_at : Option ℕ
  pub next_retry_at : Option ℕ
  pub lease_expires_at : Option ℕ
  pub worker_id : Option String
  pub failure_code : Option String
  pub failure_message : Option String
  pub last_error_retryable : Option Bool
  pub replay_of_job_id : Option ℕ
  pub created_at : ℕ

pub record ImportAttempt : Type 0 where
  pub id : ℕ
  pub import_job_id : ℕ
  pub attempt_number : ℕ
  pub status : ImportAttemptStatus
  pub celery_task_id : Option String
  pub worker_id : String
  pub started_at : ℕ
  pub completed_at : Option ℕ
  pub error_code : Option String
  pub error_message : Option String
  pub retryable : Option Bool

-- The texts for the learner, `title`, `explanation`, `evidence_reference` and `details`, are left
-- out.
pub record OperationEvent : Type 0 where
  pub id : ℕ
  pub import_job_id : ℕ
  pub correlation_id : Option String
  pub component : String
  pub stage : String
  pub status : String
  pub occurred_at : ℕ

pub record ImportJobError : Type 0 where
  pub id : ℕ
  pub import_job_id : ℕ
  pub source_row : Option ℕ
  pub error_code : String
  pub field_name : Option String
  pub raw_fragment : Option (List (String × String))
  pub created_at : ℕ

pub record InventorySnapshot : Type 0 where
  pub id : ℕ
  pub import_job_id : ℕ
  pub supplier_id : ℕ
  pub product_id : ℕ
  pub warehouse_id : ℕ
  pub source_reference : String
  pub external_sku : String
  pub external_location : String
  pub observed_at : ℕ
  pub on_hand_quantity : Decimal
  pub reserved_quantity : Decimal
  pub source_unit : UnitOfMeasure
  pub units_per_source_unit : Decimal
  pub product_mapping_version : ℕ
  pub warehouse_mapping_version : ℕ
  pub source_row : ℕ
  pub raw_fragment : List (String × String)
