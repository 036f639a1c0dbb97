-- ===== src/Analytics/Services.antt =====
-- application/analytics_services.py.
use supply_chain_integration.Base.{
  ℕ, suc, ◌+◌, ◌-◌, ◌*◌, ◌/◌, Bool, true, false, not, ◌&&◌, Option, none, some, List, [], ◌∷◌, ◌++◌,
  ◌==◌, length, find, select, sort_by, take, drop, if◌then◌else◌,
}
use supply_chain_integration.Base.Int.{ℤ, pos, negsuc}
use supply_chain_integration.Domain.Decimal.{Decimal, thousandths}
use supply_chain_integration.Domain.Enums.{AnalyticsEngine, AnalyticsRunType, RiskSeverity}
use supply_chain_integration.Domain.Errors.{Result, ok, err, resource_conflict, resource_not_found}
use supply_chain_integration.Store.Rows.{Uuid}
use supply_chain_integration.Analytics.Types.{
  SupplierInventoryRow, HubInventoryRow, ReconciliationResult, ReconciliationExecution,
}
use supply_chain_integration.Analytics.Frames.{FrameLibrary}
use supply_chain_integration.Analytics.Reconciliation.{reconcile_with_pandas, reconcile_with_polars}
use supply_chain_integration.Analytics.Synthetic.{Generator, generate_reconciliation_inputs}
use supply_chain_integration.Analytics.Tables.{
  reconciliation_summary, AnalyticsRun, InventoryReconciliation, StockoutRisk, AnalyticsDb,
  AnalyticsTx, commit,
}

-- `_decimal(Decimal(nanoseconds) / 1000000)`: milliseconds of three places, rounded half up.
abbrev pub milliseconds : ℕ → Decimal
milliseconds nanoseconds = thousandths ((nanoseconds + 500) / 1000)

-- `Decimal(n)` of a whole number.
abbrev pub whole : ℤ → Decimal
whole (pos n) = pos (1000000 * n)
whole (negsuc n) = negsuc (1000000 * n + 999999)

abbrev pub is_mismatch : ReconciliationResult → Bool
is_mismatch r = not r.matches

unfoldable pub mismatch_count : List ReconciliationResult → ℕ
unfolding select
mismatch_count results = length (select is_mismatch results)

abbrev pub reconciliation_row : Uuid → Uuid → ReconciliationResult → InventoryReconciliation
reconciliation_row id run_id r = record {
  id = id;
  run_id = run_id;
  record_index = r.record_index;
  supplier_code = r.supplier_code;
  product_sku = r.product_sku;
  warehouse_code = r.warehouse_code;
  reported_quantity = whole r.reported_quantity;
  hub_quantity = whole r.hub_quantity;
  difference_quantity = whole r.difference_quantity;
  matches = r.matches;
}

-- The rows of a run, with fresh ids from `id` on.
unfoldable pub reconciliation_rows :
    Uuid → Uuid → List ReconciliationResult → List InventoryReconciliation
reconciliation_rows id run_id [] = []
reconciliation_rows id run_id (r ∷ rs) =
    reconciliation_row id run_id r ∷ reconciliation_rows (suc id) run_id rs

abbrev pub reconciliation_run :
    Uuid → AnalyticsEngine → ℕ → ℕ → ℕ → ReconciliationExecution → AnalyticsRun
reconciliation_run id engine row_count seed nanoseconds execution =
    let mismatches = mismatch_count execution.results in
    record {
      id = id;
      run_type = AnalyticsRunType.inventory_reconciliation;
      engine = engine;
      dataset_seed = seed;
      input_rows = row_count;
      duration_ms = milliseconds nanoseconds;
      summary =
          reconciliation_summary (row_count - mismatches) mismatches execution.dataframe_bytes;
    }

-- `session.add(run)` adds the rows that the run refers to as well.
abbrev pub add_reconciliation_run :
    AnalyticsRun → List ReconciliationResult → AnalyticsDb → AnalyticsDb
add_reconciliation_run run results db = record db {
  next_id = suc db.next_id + length results;
  runs = db.runs ++ run ∷ [];
  reconciliations = db.reconciliations ++ reconciliation_rows (suc db.next_id) db.next_id results;
}

module _ (pandas polars : FrameLibrary) (rng : Generator) where
  -- numpy is no engine for this.
  unfoldable pub reconcile :
      AnalyticsEngine
      → List SupplierInventoryRow
      → List HubInventoryRow
      → Result ReconciliationExecution
  reconcile AnalyticsEngine.pandas suppliers hubs = reconcile_with_pandas pandas suppliers hubs
  reconcile AnalyticsEngine.polars suppliers hubs = reconcile_with_polars polars suppliers hubs
  reconcile AnalyticsEngine.numpy suppliers hubs = err resource_conflict

  unfoldable pub store_reconciliation :
      AnalyticsEngine → ℕ → ℕ → ℕ → Result ReconciliationExecution → AnalyticsTx AnalyticsRun
  unfolding reconciliation_rows mismatch_count commit
  store_reconciliation engine row_count seed nanoseconds (err e) db = err e
  store_reconciliation engine row_count seed nanoseconds (ok execution) db =
      let run = reconciliation_run db.next_id engine row_count seed nanoseconds execution in
      commit run (add_reconciliation_run run execution.results db)

  abbrev reconcile_inputs :
      AnalyticsEngine
      → Result (List SupplierInventoryRow × List HubInventoryRow)
      → Result ReconciliationExecution
  reconcile_inputs engine (err e) = err e
  reconcile_inputs engine (ok (suppliers, hubs)) = reconcile engine suppliers hubs

  -- `nanoseconds` is what the performance counter measured.
  unfoldable pub run_reconciliation : AnalyticsEngine → ℕ → ℕ → ℕ → AnalyticsTx AnalyticsRun
  unfolding reconcile store_reconciliation generate_reconciliation_inputs
  run_reconciliation AnalyticsEngine.numpy row_count seed nanoseconds db = err resource_conflict
  run_reconciliation engine row_count seed nanoseconds db =
      store_reconciliation engine row_count seed nanoseconds
        (reconcile_inputs engine (generate_reconciliation_inputs rng row_count seed)) db

unfoldable pub get_analytics_run : Uuid → AnalyticsTx AnalyticsRun
unfolding find
get_analytics_run run_id db = found (find (λ run. run.id == run_id) db.runs) db
  where
    found : Option AnalyticsRun → AnalyticsTx AnalyticsRun
    found none db = err resource_not_found
    found (some run) db = ok (run, db)

-- `order_by(record_index).offset(offset).limit(limit)`
abbrev pub page : {A : Type 0} → (A → ℕ) → ℕ → ℕ → List A → List A
page key offset limit rows = take limit (drop offset (sort_by key rows))

abbrev pub is_reconciliation : AnalyticsRunType → Bool
is_reconciliation AnalyticsRunType.inventory_reconciliation = true
is_reconciliation AnalyticsRunType.stockout_risk = false

abbrev pub wanted_reconciliation : Uuid → Bool → InventoryReconciliation → Bool
wanted_reconciliation run_id only_mismatches r =
    r.run_id == run_id && (if only_mismatches then not r.matches else true)

unfoldable pub list_reconciliations :
    Uuid → Bool → ℕ → ℕ → AnalyticsDb → Result (List InventoryReconciliation)
unfolding get_analytics_run select sort_by
list_reconciliations run_id only_mismatches offset limit db = elim (get_analytics_run run_id db) [
  | err e ↦ err e
  | ok (run, db') ↦
      if is_reconciliation run.run_type
      then ok (
          page (λ r. r.record_index) offset limit
            (select (wanted_reconciliation run_id only_mismatches) db.reconciliations))
      else err resource_conflict
]

abbrev pub same_severity : RiskSeverity → RiskSeverity → Bool
same_severity RiskSeverity.none RiskSeverity.none = true
same_severity RiskSeverity.low RiskSeverity.low = true
same_severity RiskSeverity.medium RiskSeverity.medium = true
same_severity RiskSeverity.high RiskSeverity.high = true
same_severity a b = false

abbrev pub wanted_risk : Uuid → Option RiskSeverity → StockoutRisk → Bool
wanted_risk run_id none r = r.run_id == run_id
wanted_risk run_id (some severity) r = r.run_id == run_id && same_severity r.severity severity

unfoldable pub list_stockout_risks :
    Uuid → Option RiskSeverity → ℕ → ℕ → AnalyticsDb → Result (List StockoutRisk)
unfolding get_analytics_run select sort_by
list_stockout_risks run_id severity offset limit db = elim (get_analytics_run run_id db) [
  | err e ↦ err e
  | ok (run, db') ↦
      if is_reconciliation run.run_type
      then err resource_conflict
      else ok (
          page (λ r. r.record_index) offset limit
            (select (wanted_risk run_id severity) db.stockout_risks))
]
