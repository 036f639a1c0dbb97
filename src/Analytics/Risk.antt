-- ===== src/Analytics/Risk.antt =====
-- analytics/risk.py: the risk of running out of stock. The arrays are computed element by element.
use supply_chain_integration.Base.{ℕ, String, List, [], ◌∷◌, map, select, if◌then◌else◌}
use supply_chain_integration.Domain.Enums.{RiskSeverity}
use supply_chain_integration.Domain.Errors.{Result, ok, err, other_error}
use supply_chain_integration.Analytics.Floats.{Floats}

pub record RiskInput (F : Type 0) : Type 0 where
  pub record_index : ℕ
  pub product_sku : String
  pub warehouse_code : String
  pub on_hand_quantity : F
  pub reserved_quantity : F
  pub inbound_quantity : F
  pub forecast_quantity : F
  pub actual_demand_quantity : F

pub record StockoutRiskResult (F : Type 0) : Type 0 where
  pub record_index : ℕ
  pub product_sku : String
  pub warehouse_code : String
  pub on_hand_quantity : F
  pub reserved_quantity : F
  pub inbound_quantity : F
  pub forecast_quantity : F
  pub actual_demand_quantity : F
  pub available_quantity : F
  pub projected_ending_quantity : F
  pub projected_shortage_quantity : F
  pub shortage_ratio : F
  pub severity : RiskSeverity

pub record ForecastMetrics (F : Type 0) : Type 0 where
  pub mean_absolute_error : F
  pub root_mean_squared_error : F
  pub bias : F
  pub weighted_absolute_percentage_error : F

pub record RiskThresholds (F : Type 0) : Type 0 where
  pub low_to_medium : F
  pub medium_to_high : F

pub record RiskExecution (F : Type 0) : Type 0 where
  pub results : List (StockoutRiskResult F)
  pub forecast_metrics : ForecastMetrics F
  pub thresholds : RiskThresholds F

module _ {F : Type 0} (f : Floats F) where
  open f use {add, sub, neg, abs, square, sqrt, div, maximum, le, eq, lt, sum, mean, quantile}

  pub available : RiskInput F → F
  available r = maximum (sub r.on_hand_quantity r.reserved_quantity) f.zero

  pub projected_ending : RiskInput F → F
  unfolding available
  projected_ending r = sub (add (available r) r.inbound_quantity) r.forecast_quantity

  unfoldable pub shortage : RiskInput F → F
  unfolding projected_ending
  shortage r = maximum (neg (projected_ending r)) f.zero

  -- `np.divide` with `where=forecast > 0` and zeros elsewhere.
  unfoldable pub shortage_ratio : RiskInput F → F
  unfolding shortage
  shortage_ratio r =
      if lt f.zero r.forecast_quantity then div (shortage r) r.forecast_quantity else f.zero

  abbrev pub thresholds_of : List F → RiskThresholds F
  thresholds_of [] = record { low_to_medium = f.zero; medium_to_high = f.zero }
  thresholds_of (ratio ∷ ratios) = record {
    low_to_medium = quantile (ratio ∷ ratios) 5;
    medium_to_high = quantile (ratio ∷ ratios) 8;
  }

  -- The thresholds are quantiles of the ratios that are positive.
  unfoldable pub risk_thresholds : List (RiskInput F) → RiskThresholds F
  unfolding shortage_ratio select
  risk_thresholds records = thresholds_of (select (lt f.zero) (map shortage_ratio records))

  -- `np.select`: the first condition that holds.
  unfoldable pub severity_of : RiskThresholds F → F → RiskSeverity
  severity_of t ratio =
      if eq ratio f.zero
      then RiskSeverity.none
      else if le ratio t.low_to_medium
      then RiskSeverity.low
      else if le ratio t.medium_to_high
      then RiskSeverity.medium
      else RiskSeverity.high

  unfoldable pub risk_result : RiskThresholds F → RiskInput F → StockoutRiskResult F
  unfolding shortage_ratio severity_of
  risk_result t r = record {
    record_index = r.record_index;
    product_sku = r.product_sku;
    warehouse_code = r.warehouse_code;
    on_hand_quantity = r.on_hand_quantity;
    reserved_quantity = r.reserved_quantity;
    inbound_quantity = r.inbound_quantity;
    forecast_quantity = r.forecast_quantity;
    actual_demand_quantity = r.actual_demand_quantity;
    available_quantity = available r;
    projected_ending_quantity = projected_ending r;
    projected_shortage_quantity = shortage r;
    shortage_ratio = shortage_ratio r;
    severity = severity_of t (shortage_ratio r);
  }

  abbrev error_of : RiskInput F → F
  error_of r = sub r.forecast_quantity r.actual_demand_quantity

  -- Both arrays come from one list, so their shapes agree.
  unfoldable pub calculate_forecast_metrics : List (RiskInput F) → Result (ForecastMetrics F)
  calculate_forecast_metrics [] = err other_error
  calculate_forecast_metrics (r ∷ rs) =
      let errors = map error_of (r ∷ rs) in
      let actual_total = sum (map (λ r. abs r.actual_demand_quantity) (r ∷ rs)) in
      ok (record {
        mean_absolute_error = mean (map abs errors);
        root_mean_squared_error = sqrt (mean (map square errors));
        bias = mean errors;
        weighted_absolute_percentage_error =
            if lt f.zero actual_total then div (sum (map abs errors)) actual_total else f.zero;
      })

  abbrev with_metrics : List (RiskInput F) → Result (ForecastMetrics F) → Result (RiskExecution F)
  with_metrics records (err e) = err e
  with_metrics records (ok metrics) = ok (record {
    results = map (risk_result (risk_thresholds records)) records;
    forecast_metrics = metrics;
    thresholds = risk_thresholds records;
  })

  unfoldable pub calculate_stockout_risks : List (RiskInput F) → Result (RiskExecution F)
  unfolding risk_result risk_thresholds calculate_forecast_metrics
  calculate_stockout_risks [] = err other_error
  calculate_stockout_risks (r ∷ rs) = with_metrics (r ∷ rs) (calculate_forecast_metrics (r ∷ rs))
