-- ===== src/Analytics/Stored.antt =====
-- `run_reconciliation` as a whole: the generated inputs, either library, and the commit.
use supply_chain_integration.Base.{
  ℕ, ◌+◌, ◌≤◌, ◌≡◌, refl, ◌∙◌, Bool, true, false, List, [], ◌∷◌, map, length, length-map, select,
  arith,
}
use supply_chain_integration.Domain.Enums.{AnalyticsEngine}
use supply_chain_integration.Domain.Errors.{Result, ok, err}
use supply_chain_integration.Analytics.Types.{ReconciliationResult, ReconciliationExecution}
use supply_chain_integration.Analytics.Frames.{FrameLibrary, IsDocumented}
use supply_chain_integration.Analytics.Reconciliation.{compared}
use supply_chain_integration.Analytics.Synthetic.{Generator, supplier_rows, hub_rows}
use supply_chain_integration.Analytics.Tables.{Summary, reconciliation_summary}
use supply_chain_integration.Analytics.Services.{is_mismatch, mismatch_count, reconcile}
use supply_chain_integration.Analytics.Engines.{results_of, reconcile-reference}
use supply_chain_integration.Analytics.Generated.{
  pairs, length-pairs, supplier_rows-DistinctRows, reference-generated, generated-FitColumns,
}

abbrev pub is_frame_engine : AnalyticsEngine → Bool
is_frame_engine AnalyticsEngine.numpy = false
is_frame_engine engine = true

pub results_of-ok :
    (r : Result ReconciliationExecution) (results : List ReconciliationResult)
    → results_of r ≡ ok results
    → (execution : ReconciliationExecution) × (r ≡ ok execution) × (execution.results ≡ results)
results_of-ok (ok execution) results h = (execution, refl, ground arith)
results_of-ok (err e) results h = absurd (cc h)

length-select_le :
    (p : ReconciliationResult → Bool) (rs : List ReconciliationResult)
    → length (select p rs) ≤ length rs
unfolding select
length-select_le p [] = omega arith
length-select_le p (r ∷ rs) = ground (arith, length-select_le p rs)

mismatch_count-le : (rs : List ReconciliationResult) → mismatch_count rs ≤ length rs
unfolding mismatch_count
mismatch_count-le rs = length-select_le is_mismatch rs

-- The summary counts the mismatches, and all other rows as matches.
abbrev pub CountsAll : ℕ → ℕ → Summary → Type 0
CountsAll rows differing summary =
    (matches mismatches bytes : ℕ) × (summary ≡ reconciliation_summary matches mismatches bytes)
    × (matches + mismatches ≡ rows)
    × (mismatches ≡ differing)

module _ (pandas polars : FrameLibrary) (rng : Generator) (p : IsDocumented pandas)
    (q : IsDocumented polars) where
  -- What either engine makes of the generated rows.
  abbrev pub expected : ℕ → ℕ → List ReconciliationResult
  expected row_count seed = map compared (pairs rng seed row_count row_count 0)

  pub mismatch_count-expected :
      (row_count seed : ℕ) → mismatch_count (expected row_count seed) ≤ row_count
  mismatch_count-expected n seed = omega (
    arith,
    mismatch_count-le (expected n seed),
    length-map compared (pairs rng seed n n 0),
    length-pairs rng seed n n 0,
  )

  pub reconcile-expected :
      (engine : AnalyticsEngine) (row_count seed : ℕ)
      → is_frame_engine engine ≡ true
      → results_of (
          reconcile pandas polars rng engine
            (supplier_rows rng seed row_count row_count 0)
            (hub_rows rng seed row_count row_count 0))
        ≡ ok (expected row_count seed)
  unfolding reconcile
  reconcile-expected AnalyticsEngine.pandas n seed h =
      (reconcile-reference pandas p (supplier_rows rng seed n n 0) (hub_rows rng seed n n 0)
        (generated-FitColumns rng seed n n) (λ i. supplier_rows-DistinctRows rng seed n i n 0)).0
      ∙ reference-generated rng seed n n
  reconcile-expected AnalyticsEngine.polars n seed h =
      (reconcile-reference polars q (supplier_rows rng seed n n 0) (hub_rows rng seed n n 0)
        (generated-FitColumns rng seed n n) (λ i. supplier_rows-DistinctRows rng seed n i n 0)).1
      ∙ reference-generated rng seed n n
  reconcile-expected AnalyticsEngine.numpy n seed h = absurd (cc h)
