-- ===== src/Analytics/Agreement.antt =====
-- The benchmark never finds that the engines disagree.
use supply_chain_integration.Base.{
  ℕ, zero, suc, ◌+◌, ◌-◌, ◌≤◌, ◌≡◌, refl, ap, true, some, List, [], ◌∷◌, eq_iff, arith,
}
use supply_chain_integration.Domain.Enums.{AnalyticsEngine}
use supply_chain_integration.Domain.Errors.{ok}
use supply_chain_integration.Analytics.Types.{ReconciliationResult, ReconciliationExecution}
use supply_chain_integration.Analytics.Frames.{FrameLibrary, IsDocumented}
use supply_chain_integration.Analytics.Reconciliation.{reconcile_with_pandas, reconcile_with_polars}
use supply_chain_integration.Analytics.Synthetic.{
  Generator, supplier_rows, hub_rows, generate_reconciliation_inputs,
}
use supply_chain_integration.Analytics.Services.{mismatch_count, reconcile}
use supply_chain_integration.Analytics.Stored.{
  expected, results_of-ok, reconcile-expected, mismatch_count-expected,
}
use supply_chain_integration.Analytics.Benchmark.{
  BenchmarkReport, same_result, same_results, repeated, benchmark_engine, benchmark_reconciliation,
}

same_result_self : (a : ReconciliationResult) → same_result a a ≡ true
same_result_self a = ground (
  arith,
  (eq_iff a.supplier_code a.supplier_code).1 refl,
  (eq_iff a.product_sku a.product_sku).1 refl,
  (eq_iff a.warehouse_code a.warehouse_code).1 refl,
)

same_results_self : (xs : List ReconciliationResult) → same_results xs xs ≡ true
unfolding same_results
same_results_self [] = refl
same_results_self (a ∷ xs) = rw (same_result_self a) (same_results_self xs)

repeated-last :
    (n : ℕ) (execution : ReconciliationExecution)
    → repeated n (ok execution) (some execution) ≡ ok (some execution)
unfolding repeated
repeated-last zero execution = refl
repeated-last (suc n) execution = repeated-last n execution

-- At least one repetition measures what a single call gives.
benchmark_engine-call :
    (n : ℕ) (execution : ReconciliationExecution)
    → benchmark_engine (suc n) (ok execution) ≡ ok execution
unfolding benchmark_engine repeated
benchmark_engine-call n execution = rw (repeated-last n execution) refl

module _ (pandas polars : FrameLibrary) (rng : Generator) (p : IsDocumented pandas)
    (q : IsDocumented polars) where
  reports :
      (row_count seed n : ℕ) (first second : ReconciliationExecution)
      → 1 ≤ row_count
      → reconcile_with_pandas pandas
          (supplier_rows rng seed row_count row_count 0)
          (hub_rows rng seed row_count row_count 0)
        ≡ ok first
      → reconcile_with_polars polars
          (supplier_rows rng seed row_count row_count 0)
          (hub_rows rng seed row_count row_count 0)
        ≡ ok second
      → same_results first.results second.results ≡ true
      → benchmark_reconciliation pandas polars rng row_count seed (suc (suc n))
        ≡ ok (record {
          row_count = row_count;
          mismatch_count = mismatch_count first.results;
          match_count = row_count - mismatch_count first.results;
          pandas_bytes = first.dataframe_bytes;
          polars_bytes = second.dataframe_bytes;
        })
  unfolding benchmark_reconciliation generate_reconciliation_inputs
  reports m seed n first second positive e e' same =
      ground
        (arith, benchmark_engine-call (suc n) first, benchmark_engine-call (suc n) second, e, e')

  -- With libraries that do what their documentation says, at least one row and at least two
  -- repetitions, the benchmark never ends with "different results": it reports the mismatches of
  -- the generated rows, and all other rows as matches.
  pub benchmark_reconciliation_lem :
      (row_count seed repeats : ℕ)
      → 1 ≤ row_count
      → 2 ≤ repeats
      → (report : BenchmarkReport) × (benchmark_reconciliation pandas polars rng row_count seed
            repeats
          ≡ ok report)
        × (report.mismatch_count ≡ mismatch_count (expected pandas polars rng p q row_count seed))
        × (report.match_count + report.mismatch_count ≡ row_count)
  unfolding reconcile
  benchmark_reconciliation_lem m seed (suc (suc n)) positive enough =
      let rows = expected pandas polars rng p q m seed in
      let (first, e, results) =
        results_of-ok _ rows
          (reconcile-expected pandas polars rng p q AnalyticsEngine.pandas m seed refl) in
      let (second, e', results') =
        results_of-ok _ rows
          (reconcile-expected pandas polars rng p q AnalyticsEngine.polars m seed refl) in
      (
        _,
        reports m seed n first second positive e e'
            (rw (results, results') (same_results_self rows)),
        ap mismatch_count results,
        rw results (omega (arith, mismatch_count-expected pandas polars rng p q m seed)),
      )
  benchmark_reconciliation_lem m seed zero positive enough = absurd (omega arith)
  benchmark_reconciliation_lem m seed (suc zero) positive enough = absurd (omega arith)
