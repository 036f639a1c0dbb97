-- ===== src/Domain/Enums.antt =====
-- domain/enums.py: the enumerations, and the comparisons that the services make between members.
use supply_chain_integration.Base.{Bool, true, false, String, ◌≡◌, arith}

pub data RecordStatus : Type 0 where
  active inactive : RecordStatus

pub data UnitOfMeasure : Type 0 where
  each case pallet kilogram : UnitOfMeasure

pub data PurchaseOrderStatus : Type 0 where
  submitted partially_received received cancelled : PurchaseOrderStatus

pub data ShipmentStatus : Type 0 where
  planned picked_up in_transit delayed delivered cancelled : ShipmentStatus

pub data ShipmentEventType : Type 0 where
  picked_up in_transit delayed delivered cancelled : ShipmentEventType

pub data ImportStatus : Type 0 where
  queued processing completed completed_with_errors failed : ImportStatus

pub data ImportAttemptStatus : Type 0 where
  running succeeded retry_scheduled failed abandoned : ImportAttemptStatus

pub data ImportSourceType : Type 0 where
  supplier_a_json supplier_b_csv : ImportSourceType

pub data AnalyticsEngine : Type 0 where
  pandas polars numpy : AnalyticsEngine

pub data AnalyticsRunType : Type 0 where
  inventory_reconciliation stockout_risk : AnalyticsRunType

pub data RiskSeverity : Type 0 where
  none low medium high : RiskSeverity

-- The `value` of a member, where the code builds a text from it.
abbrev pub source_type_value : ImportSourceType → String
source_type_value ImportSourceType.supplier_a_json = "supplier_a_json"
source_type_value ImportSourceType.supplier_b_csv = "supplier_b_csv"

abbrev pub same_source : ImportSourceType → ImportSourceType → Bool
same_source ImportSourceType.supplier_a_json ImportSourceType.supplier_a_json = true
same_source ImportSourceType.supplier_b_csv ImportSourceType.supplier_b_csv = true
same_source a b = false

abbrev pub same_unit : UnitOfMeasure → UnitOfMeasure → Bool
same_unit UnitOfMeasure.each UnitOfMeasure.each = true
same_unit UnitOfMeasure.case UnitOfMeasure.case = true
same_unit UnitOfMeasure.pallet UnitOfMeasure.pallet = true
same_unit UnitOfMeasure.kilogram UnitOfMeasure.kilogram = true
same_unit a b = false

abbrev pub is_queued : ImportStatus → Bool
is_queued ImportStatus.queued = true
is_queued s = false

abbrev pub is_processing : ImportStatus → Bool
is_processing ImportStatus.processing = true
is_processing s = false

abbrev pub is_failed : ImportStatus → Bool
is_failed ImportStatus.failed = true
is_failed s = false

abbrev pub is_picked_up : ShipmentEventType → Bool
is_picked_up ShipmentEventType.picked_up = true
is_picked_up e = false

abbrev pub is_delivered : ShipmentEventType → Bool
is_delivered ShipmentEventType.delivered = true
is_delivered e = false

pub same_unit-eq : (a b : UnitOfMeasure) → same_unit a b ≡ true → a ≡ b
same_unit-eq a b h = ground arith

pub same_source_refl : (a : ImportSourceType) → same_source a a ≡ true
same_source_refl a = ground arith
