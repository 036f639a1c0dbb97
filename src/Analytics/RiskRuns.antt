-- ===== src/Analytics/RiskRuns.antt =====
-- `generate_risk_inputs` of analytics/synthetic.py and `run_stockout_risk` of
-- application/analytics_services.py.
use Prim.Native.Nat.{◌%◌}
use supply_chain_integration.Base.{
  ℕ, zero, suc, ◌+◌, List, [], ◌∷◌, ◌++◌, length, select, ltb, if◌then◌else◌,
}
use supply_chain_integration.Domain.Enums.{AnalyticsEngine, AnalyticsRunType, RiskSeverity}
use supply_chain_integration.Domain.Errors.{Result, ok, err, other_error}
use supply_chain_integration.Store.Rows.{Uuid}
use supply_chain_integration.Analytics.Floats.{Floats}
use supply_chain_integration.Analytics.Risk.{
  RiskInput, StockoutRiskResult, RiskExecution, calculate_stockout_risks,
}
use supply_chain_integration.Analytics.Synthetic.{numbered_text}
use supply_chain_integration.Analytics.Tables.{
  risk_summary, AnalyticsRun, StockoutRisk, AnalyticsDb, AnalyticsTx, commit,
}
use supply_chain_integration.Analytics.Services.{milliseconds, same_severity}

-- The arrays that numpy's generator draws for a seed and a size, in the order of the draws.
pub record RiskGenerator (F : Type 0) : Type 0 where
  pub on_hand : ℕ → ℕ → ℕ → ℕ
  pub reserved_share : ℕ → ℕ → ℕ → F
  pub inbound : ℕ → ℕ → ℕ → ℕ
  pub forecast_share : ℕ → ℕ → ℕ → F
  pub demand_share : ℕ → ℕ → ℕ → F

module _ {F : Type 0} (f : Floats F) (rng : RiskGenerator F) (seed size : ℕ) where
  open f use {of_ℕ, add, sub, mul, floor, rint, maximum}

  abbrev risk_reserved : ℕ → F
  risk_reserved i = floor (mul (of_ℕ (rng.on_hand seed size i)) (rng.reserved_share seed size i))

  abbrev risk_forecast : ℕ → F
  risk_forecast i =
      let free = sub (of_ℕ (rng.on_hand seed size i)) (risk_reserved i) in
      maximum (of_ℕ 1)
        (rint (mul (add free (of_ℕ (rng.inbound seed size i))) (rng.forecast_share seed size i)))

  abbrev risk_actual : ℕ → F
  risk_actual i = maximum (of_ℕ 0) (rint (mul (risk_forecast i) (rng.demand_share seed size i)))

  abbrev risk_input : ℕ → RiskInput F
  risk_input i = record {
    record_index = i;
    product_sku = numbered_text "SYN-RISK-SKU-" 7 i;
    warehouse_code = numbered_text "SYN-WH-" 2 (i % 25);
    on_hand_quantity = of_ℕ (rng.on_hand seed size i);
    reserved_quantity = risk_reserved i;
    inbound_quantity = of_ℕ (rng.inbound seed size i);
    forecast_quantity = risk_forecast i;
    actual_demand_quantity = risk_actual i;
  }

  -- The rounds that are left, and the index.
  unfoldable pub risk_inputs : ℕ → ℕ → List (RiskInput F)
  risk_inputs zero i = []
  risk_inputs (suc n) i = risk_input i ∷ risk_inputs n (i + 1)

module _ {F : Type 0} (f : Floats F) where
  open f use {quantized}

  unfoldable pub generate_risk_inputs : RiskGenerator F → ℕ → ℕ → Result (List (RiskInput F))
  unfolding risk_inputs
  generate_risk_inputs rng row_count seed =
      if ltb row_count 1 then err other_error else ok (risk_inputs f rng seed row_count row_count 0)

  abbrev risk_row : Uuid → Uuid → StockoutRiskResult F → StockoutRisk
  risk_row id run_id r = record {
    id = id;
    run_id = run_id;
    record_index = r.record_index;
    product_sku = r.product_sku;
    warehouse_code = r.warehouse_code;
    on_hand_quantity = quantized 3 r.on_hand_quantity;
    reserved_quantity = quantized 3 r.reserved_quantity;
    inbound_quantity = quantized 3 r.inbound_quantity;
    forecast_quantity = quantized 3 r.forecast_quantity;
    actual_demand_quantity = quantized 3 r.actual_demand_quantity;
    available_quantity = quantized 3 r.available_quantity;
    projected_ending_quantity = quantized 3 r.projected_ending_quantity;
    projected_shortage_quantity = quantized 3 r.projected_shortage_quantity;
    shortage_ratio = quantized 6 r.shortage_ratio;
    severity = r.severity;
  }

  unfoldable pub risk_rows : Uuid → Uuid → List (StockoutRiskResult F) → List StockoutRisk
  risk_rows id run_id [] = []
  risk_rows id run_id (r ∷ rs) = risk_row id run_id r ∷ risk_rows (suc id) run_id rs

  unfoldable pub severity_count : RiskSeverity → List (StockoutRiskResult F) → ℕ
  unfolding select
  severity_count severity results = length (select (λ r. same_severity r.severity severity) results)

  abbrev risk_run : Uuid → ℕ → ℕ → ℕ → RiskExecution F → AnalyticsRun
  risk_run id row_count seed nanoseconds execution = record {
    id = id;
    run_type = AnalyticsRunType.stockout_risk;
    engine = AnalyticsEngine.numpy;
    dataset_seed = seed;
    input_rows = row_count;
    duration_ms = milliseconds nanoseconds;
    summary =
        risk_summary (severity_count RiskSeverity.none execution.results)
          (severity_count RiskSeverity.low execution.results)
          (severity_count RiskSeverity.medium execution.results)
          (severity_count RiskSeverity.high execution.results);
  }

  abbrev add_risk_run : AnalyticsRun → List (StockoutRiskResult F) → AnalyticsDb → AnalyticsDb
  add_risk_run run results db = record db {
    next_id = suc db.next_id + length results;
    runs = db.runs ++ run ∷ [];
    stockout_risks = db.stockout_risks ++ risk_rows (suc db.next_id) db.next_id results;
  }

  unfoldable pub store_risks : ℕ → ℕ → ℕ → Result (RiskExecution F) → AnalyticsTx AnalyticsRun
  unfolding risk_rows severity_count commit
  store_risks row_count seed nanoseconds (err e) db = err e
  store_risks row_count seed nanoseconds (ok execution) db =
      let run = risk_run db.next_id row_count seed nanoseconds execution in
      commit run (add_risk_run run execution.results db)

  abbrev assess : Result (List (RiskInput F)) → Result (RiskExecution F)
  assess (err e) = err e
  assess (ok inputs) = calculate_stockout_risks f inputs

  unfoldable pub run_stockout_risk : RiskGenerator F → ℕ → ℕ → ℕ → AnalyticsTx AnalyticsRun
  unfolding generate_risk_inputs store_risks
  run_stockout_risk rng row_count seed nanoseconds db =
      store_risks row_count seed nanoseconds (assess (generate_risk_inputs rng row_count seed)) db
