-- ===== src/Analytics/Benchmark.antt =====
-- analytics/benchmark.py: both engines on the same generated rows, a number of times. Left out are
-- the durations and the description of the machine.
use supply_chain_integration.Base.{
  same_bool, ℕ, zero, suc, ◌-◌, Bool, true, false, not, ◌&&◌, Option, none, some, List, [], ◌∷◌,
  ◌==◌, str_eq, ltb, if◌then◌else◌,
}
use supply_chain_integration.Base.Int.{eq_ℤ}
use supply_chain_integration.Domain.Errors.{Result, ok, err, other_error}
use supply_chain_integration.Analytics.Types.{
  SupplierInventoryRow, HubInventoryRow, ReconciliationResult, ReconciliationExecution,
}
use supply_chain_integration.Analytics.Frames.{FrameLibrary}
use supply_chain_integration.Analytics.Reconciliation.{reconcile_with_pandas, reconcile_with_polars}
use supply_chain_integration.Analytics.Synthetic.{Generator, generate_reconciliation_inputs}
use supply_chain_integration.Analytics.Services.{mismatch_count}

-- `==` of two frozen data classes, and of two lists of them.
abbrev pub same_result : ReconciliationResult → ReconciliationResult → Bool
same_result a b =
    a.record_index == b.record_index
    && str_eq a.supplier_code b.supplier_code
    && str_eq a.product_sku b.product_sku
    && str_eq a.warehouse_code b.warehouse_code
    && eq_ℤ a.reported_quantity b.reported_quantity
    && eq_ℤ a.hub_quantity b.hub_quantity
    && eq_ℤ a.difference_quantity b.difference_quantity
    && same_bool a.matches b.matches

unfoldable pub same_results : List ReconciliationResult → List ReconciliationResult → Bool
same_results [] [] = true
same_results (a ∷ xs) (b ∷ ys) = same_result a b && same_results xs ys
same_results xs ys = false

pub record BenchmarkReport : Type 0 where
  pub row_count : ℕ
  pub mismatch_count : ℕ
  pub match_count : ℕ
  pub pandas_bytes : ℕ
  pub polars_bytes : ℕ

-- The loop of `_benchmark_engine`: the rounds that are left, and the execution of the last one.
unfoldable pub repeated :
    ℕ
    → Result ReconciliationExecution
    → Option ReconciliationExecution
    → Result (Option ReconciliationExecution)
repeated zero call last = ok last
repeated (suc n) (err e) last = err e
repeated (suc n) (ok execution) last = repeated n (ok execution) (some execution)

-- `_benchmark_engine`: a first call that is not measured, then the loop. `call` is the function at
-- the rows; every call of it gives the same.
unfoldable pub benchmark_engine :
    ℕ → Result ReconciliationExecution → Result ReconciliationExecution
unfolding repeated
benchmark_engine repeats (err e) = err e
benchmark_engine repeats (ok execution) = last (repeated repeats (ok execution) none)
  where
    last : Result (Option ReconciliationExecution) → Result ReconciliationExecution
    last (err e) = err e
    last (ok none) = err other_error
    last (ok (some final)) = ok final

module _ (pandas polars : FrameLibrary) (rng : Generator) where
  abbrev report :
      ℕ → Result ReconciliationExecution → Result ReconciliationExecution → Result BenchmarkReport
  report row_count (err e) second = err e
  report row_count (ok first) (err e) = err e
  report row_count (ok first) (ok second) =
      if not (same_results first.results second.results)
      then err other_error
      else ok (record {
        row_count = row_count;
        mismatch_count = mismatch_count first.results;
        match_count = row_count - mismatch_count first.results;
        pandas_bytes = first.dataframe_bytes;
        polars_bytes = second.dataframe_bytes;
      })

  abbrev compare_engines :
      ℕ → ℕ → Result (List SupplierInventoryRow × List HubInventoryRow) → Result BenchmarkReport
  compare_engines row_count repeats (err e) = err e
  compare_engines row_count repeats (ok (suppliers, hubs)) =
      report row_count (benchmark_engine repeats (reconcile_with_pandas pandas suppliers hubs))
        (benchmark_engine repeats (reconcile_with_polars polars suppliers hubs))

  unfoldable pub benchmark_reconciliation : ℕ → ℕ → ℕ → Result BenchmarkReport
  unfolding benchmark_engine same_results mismatch_count generate_reconciliation_inputs
  benchmark_reconciliation row_count seed repeats =
      if ltb repeats 2
      then err other_error
      else compare_engines row_count repeats (generate_reconciliation_inputs rng row_count seed)
