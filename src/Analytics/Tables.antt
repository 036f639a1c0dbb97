-- ===== src/Analytics/Tables.antt =====
-- models.py: the three tables of the analytics, which share no row with the others, and their
-- constraints. The floats of a summary are left out.
use supply_chain_integration.Base.{
  ℕ, String, Bool, true, false, not, ◌&&◌, List, ◌==◌, ltb, unique, every,
}
use supply_chain_integration.Domain.Decimal.{Decimal, is_negative}
use supply_chain_integration.Domain.Enums.{AnalyticsEngine, AnalyticsRunType, RiskSeverity}
use supply_chain_integration.Domain.Errors.{Result, ok, err, resource_conflict}
use supply_chain_integration.Store.Rows.{Uuid}

-- The column `summary` of the two types of runs.
pub data Summary : Type 0 where
  reconciliation_summary : (match_count mismatch_count dataframe_bytes : ℕ) → Summary
  risk_summary : (none low medium high : ℕ) → Summary

pub record AnalyticsRun : Type 0 where
  pub id : Uuid
  pub run_type : AnalyticsRunType
  pub engine : AnalyticsEngine
  pub dataset_seed : ℕ
  pub input_rows : ℕ
  pub duration_ms : Decimal
  pub summary : Summary

pub record InventoryReconciliation : Type 0 where
  pub id : Uuid
  pub run_id : Uuid
  pub record_index : ℕ
  pub supplier_code : String
  pub product_sku : String
  pub warehouse_code : String
  pub reported_quantity : Decimal
  pub hub_quantity : Decimal
  pub difference_quantity : Decimal
  pub matches : Bool

pub record StockoutRisk : Type 0 where
  pub id : Uuid
  pub run_id : Uuid
  pub record_index : ℕ
  pub product_sku : String
  pub warehouse_code : String
  pub on_hand_quantity : Decimal
  pub reserved_quantity : Decimal
  pub inbound_quantity : Decimal
  pub forecast_quantity : Decimal
  pub actual_demand_quantity : Decimal
  pub available_quantity : Decimal
  pub projected_ending_quantity : Decimal
  pub projected_shortage_quantity : Decimal
  pub shortage_ratio : Decimal
  pub severity : RiskSeverity

pub record AnalyticsDb : Type 0 where
  pub next_id : ℕ
  pub runs : List AnalyticsRun
  pub reconciliations : List InventoryReconciliation
  pub stockout_risks : List StockoutRisk

abbrev pub run_checks : AnalyticsRun → Bool
run_checks run = ltb 0 run.input_rows && not (is_negative run.duration_ms)

abbrev pub same_reconciliation : InventoryReconciliation → InventoryReconciliation → Bool
same_reconciliation a b = a.run_id == b.run_id && a.record_index == b.record_index

abbrev pub same_risk : StockoutRisk → StockoutRisk → Bool
same_risk a b = a.run_id == b.run_id && a.record_index == b.record_index

abbrev pub risk_checks : StockoutRisk → Bool
risk_checks r =
    not (is_negative r.projected_shortage_quantity) && not (is_negative r.shortage_ratio)

unfoldable pub analytics_constraints_hold : AnalyticsDb → Bool
unfolding unique every
analytics_constraints_hold db =
    every run_checks db.runs
    && unique same_reconciliation db.reconciliations
    && unique same_risk db.stockout_risks
    && every risk_checks db.stockout_risks

-- A transaction on these tables, and `_commit`.
abbrev pub AnalyticsTx : Type 0 → Type 0
AnalyticsTx A = AnalyticsDb → Result (A × AnalyticsDb)

abbrev accept : {A : Type 0} → Bool → A → AnalyticsTx A
accept true a db = ok (a, db)
accept false a db = err resource_conflict

unfoldable pub commit : {A : Type 0} → A → AnalyticsTx A
commit a db = accept (analytics_constraints_hold db) a db
