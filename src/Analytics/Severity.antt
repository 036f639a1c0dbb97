-- ===== src/Analytics/Severity.antt =====
-- The classification of the shortages.
use supply_chain_integration.Base.{
  ℕ, ◌≤◌, ◌≡◌, ◌↔◌, refl, sym, ap, subst, ◌∙◌, Bool, Bool-cases, inl, inr, ◌||◌, select, true,
  false, List, [], ◌∷◌, All, map, length, length-map, arith,
}
use supply_chain_integration.Domain.Enums.{RiskSeverity}
use supply_chain_integration.Domain.Errors.{Result, ok}
use supply_chain_integration.Analytics.Floats.{Floats, IsOrdered}
use supply_chain_integration.Analytics.Risk.{
  RiskInput, StockoutRiskResult, RiskThresholds, RiskExecution, shortage, shortage_ratio,
  severity_of, risk_result, risk_thresholds, thresholds_of, calculate_forecast_metrics,
  calculate_stockout_risks,
}

abbrev pub rank : RiskSeverity → ℕ
rank RiskSeverity.none = 0
rank RiskSeverity.low = 1
rank RiskSeverity.medium = 2
rank RiskSeverity.high = 3

module _ {F : Type 0} (f : Floats F) (laws : IsOrdered f) where
  abbrev pub is_number : F → Bool
  is_number a = f.eq a a

  shortage-nonnegative :
      (r : RiskInput F) → is_number (shortage f r) ≡ true → f.le f.zero (shortage f r) ≡ true
  unfolding shortage
  shortage-nonnegative r h = laws.le_maximum _ f.zero h

  shortage_ratio-nonnegative :
      (r : RiskInput F)
      → is_number (shortage_ratio f r) ≡ true
      → f.le f.zero (shortage_ratio f r) ≡ true
  unfolding shortage_ratio
  shortage_ratio-nonnegative r h = elim (Bool-cases (f.lt f.zero r.forecast_quantity)) [
    | inr free ↦ rw free (laws.le_refl f.zero laws.zero_number)
    | inl asked ↦
        let h' = (rw asked at h) in
        rw asked (
          laws.div_nonnegative (shortage f r) r.forecast_quantity
            (shortage-nonnegative r (laws.div_number (shortage f r) r.forecast_quantity h')) asked
            h')
  ]

  -- A larger ratio is no smaller risk.
  severity_of_mono :
      (t : RiskThresholds F) (a b : F)
      → f.le f.zero a ≡ true
      → f.le a b ≡ true
      → rank (severity_of f t a) ≤ rank (severity_of f t b)
  unfolding severity_of
  severity_of_mono t a b positive order = ground (
    arith,
    laws.le_antisym a f.zero,
    laws.eq_le b f.zero,
    laws.le_trans a b f.zero order,
    laws.le_trans a b t.low_to_medium order,
    laws.le_trans a b t.medium_to_high order,
  )

  -- No shortage and no ratio that is a number is negative.
  abbrev pub IsNonnegative : StockoutRiskResult F → Type 0
  IsNonnegative r =
      (is_number r.projected_shortage_quantity ≡ true
        → f.le f.zero r.projected_shortage_quantity ≡ true)
      × (is_number r.shortage_ratio ≡ true → f.le f.zero r.shortage_ratio ≡ true)

  -- The classes: no risk at a ratio of zero; a low one, or none, exactly up to the first threshold;
  -- a high one exactly above both thresholds.
  abbrev pub IsClassified : F → F → StockoutRiskResult F → Type 0
  IsClassified median high r =
      ((r.severity ≡ RiskSeverity.none) ↔ (f.eq r.shortage_ratio f.zero ≡ true))
      × ((rank r.severity ≤ 1)
          ↔ ((f.eq r.shortage_ratio f.zero || f.le r.shortage_ratio median) ≡ true))
      × ((r.severity ≡ RiskSeverity.high) ↔ (
          (f.eq r.shortage_ratio f.zero
            || f.le r.shortage_ratio median
            || f.le r.shortage_ratio high)
          ≡ false))

  abbrev pub Respects : StockoutRiskResult F → StockoutRiskResult F → Type 0
  Respects r r' =
      f.le r.shortage_ratio r'.shortage_ratio ≡ true → rank r.severity ≤ rank r'.severity

  severity_of-IsClassified :
      (t : RiskThresholds F) (r : RiskInput F)
      → IsClassified t.low_to_medium t.medium_to_high (risk_result f t r)
  unfolding risk_result severity_of
  severity_of-IsClassified t r = (
    (λ h. ground arith, λ h. ground arith),
    (λ h. ground arith, λ h. ground arith),
    (λ h. ground arith, λ h. ground arith),
  )

  All-each :
      (P : StockoutRiskResult F → Type 0) (t : RiskThresholds F) (records : List (RiskInput F))
      → ((r : RiskInput F) → P (risk_result f t r))
      → All P (map (risk_result f t) records)
  All-each P t [] h = tt
  All-each P t (r ∷ rs) h = (h r, All-each P t rs h)

  Respects-each :
      (t : RiskThresholds F) (r r' : RiskInput F)
      → Respects (risk_result f t r) (risk_result f t r')
  unfolding risk_result
  Respects-each t r r' order =
      severity_of_mono t (shortage_ratio f r) (shortage_ratio f r')
        (shortage_ratio-nonnegative r (laws.le_number _ _ order)) order

  risk_result-IsNonnegative :
      (t : RiskThresholds F) (r : RiskInput F) → IsNonnegative (risk_result f t r)
  unfolding risk_result
  risk_result-IsNonnegative t r = (shortage-nonnegative r, shortage_ratio-nonnegative r)

  -- A quantile of the positive ratios, or zero where there is none.
  abbrev pub quantile_or_zero : ℕ → List F → F
  quantile_or_zero k [] = f.zero
  quantile_or_zero k (a ∷ ratios) = f.quantile (a ∷ ratios) k

  abbrev pub positive_quantile : ℕ → List (StockoutRiskResult F) → F
  positive_quantile k results =
      quantile_or_zero k (select (f.lt f.zero) (map (λ r. r.shortage_ratio) results))

  ratios_same :
      (t : RiskThresholds F) (records : List (RiskInput F))
      → map (λ (r : StockoutRiskResult F). r.shortage_ratio) (map (risk_result f t) records)
        ≡ map (shortage_ratio f) records
  unfolding risk_result
  ratios_same t [] = refl
  ratios_same t (r ∷ rs) = ap (λ ratios. shortage_ratio f r ∷ ratios) (ratios_same t rs)

  thresholds_lem :
      (records : List (RiskInput F))
      → ((risk_thresholds f records).low_to_medium
          ≡ quantile_or_zero 5 (select (f.lt f.zero) (map (shortage_ratio f) records)))
        × ((risk_thresholds f records).medium_to_high
            ≡ quantile_or_zero 8 (select (f.lt f.zero) (map (shortage_ratio f) records)))
  unfolding risk_thresholds
  thresholds_lem records = both (select (f.lt f.zero) (map (shortage_ratio f) records))
    where
      both :
          (ratios : List F)
          → ((thresholds_of f ratios).low_to_medium ≡ quantile_or_zero 5 ratios)
            × ((thresholds_of f ratios).medium_to_high ≡ quantile_or_zero 8 ratios)
      both [] = (refl, refl)
      both (a ∷ ratios) = (refl, refl)

  thresholds-IsClassified :
      (records : List (RiskInput F))
      → let results = map (risk_result f (risk_thresholds f records)) records in
        All (IsClassified (positive_quantile 5 results) (positive_quantile 8 results)) results
  thresholds-IsClassified records =
      let t = risk_thresholds f records in
      let (low, high) = thresholds_lem records in
      let same = ratios_same t records in
      let e : positive_quantile 5 (map (risk_result f t) records) ≡ t.low_to_medium =
        ap (λ ratios. quantile_or_zero 5 (select (f.lt f.zero) ratios)) same ∙ sym low in
      let e' : positive_quantile 8 (map (risk_result f t) records) ≡ t.medium_to_high =
        ap (λ ratios. quantile_or_zero 8 (select (f.lt f.zero) ratios)) same ∙ sym high in
      subst
        (λ m.
          All (IsClassified m (positive_quantile 8 (map (risk_result f t) records)))
            (map (risk_result f t) records))
        (sym e)
        (subst (λ h. All (IsClassified t.low_to_medium h) (map (risk_result f t) records)) (sym e')
          (All-each _ t records (severity_of-IsClassified t)))

  abbrev pub IsAssessed : List (RiskInput F) → Result (RiskExecution F) → Type 0
  IsAssessed records result =
      (execution : RiskExecution F) × (result ≡ ok execution)
      × (length execution.results ≡ length records)
      × All IsNonnegative execution.results
      × All
          (IsClassified (positive_quantile 5 execution.results)
            (positive_quantile 8 execution.results))
          execution.results
      × All (λ r. All (Respects r) execution.results) execution.results

  -- With numbers that are compared as IEEE 754 says, one input at least is assessed without an
  -- error: there is one result for each input. No shortage and no ratio that is a number is
  -- negative. The severity is none exactly at a ratio of zero, none or low exactly up to the median
  -- of the positive ratios, and high exactly above the median and the quantile 0.8; a result with a
  -- larger ratio than another has no smaller severity.
  pub calculate_stockout_risks_lem :
      (r : RiskInput F) (rs : List (RiskInput F))
      → IsAssessed (r ∷ rs) (calculate_stockout_risks f (r ∷ rs))
  unfolding calculate_stockout_risks calculate_forecast_metrics
  calculate_stockout_risks_lem r rs =
      let t = risk_thresholds f (r ∷ rs) in
      (
        _,
        refl,
        length-map (risk_result f t) (r ∷ rs),
        All-each _ t (r ∷ rs) (risk_result-IsNonnegative t),
        thresholds-IsClassified (r ∷ rs),
        All-each _ t (r ∷ rs)
            (λ r1. All-each (Respects (risk_result f t r1)) t (r ∷ rs) (Respects-each t r1)),
      )
