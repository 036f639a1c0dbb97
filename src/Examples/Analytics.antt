-- ===== src/Examples/Analytics.antt =====
-- The analytics with a library that joins and sorts like the reference definition, and with
-- integers in place of floating-point numbers.
use Prim.Native.Nat.{◌%◌}
use supply_chain_integration.Analytics.Words.{wrap64}
use supply_chain_integration.Base.{
  any, ◌<◌, ℕ, ◌+◌, ◌*◌, ◌/◌, ◌≡◌, refl, Bool, true, false, not, ◌&&◌, none, some, List, [], ◌∷◌,
  map, length, All, find, unique, select, sort_by, insert_by, if◌then◌else◌, arith,
}
use supply_chain_integration.Base.Int.{ℤ, pos, negsuc, pos_part, ◌+ℤ◌, ◌-ℤ◌, ltb_ℤ, eq_ℤ}
use supply_chain_integration.Domain.Enums.{AnalyticsEngine, AnalyticsRunType}
use supply_chain_integration.Domain.Errors.{ok}
use supply_chain_integration.Analytics.Types.{
  SupplierInventoryRow, HubInventoryRow, ReconciliationResult,
}
use supply_chain_integration.Analytics.Frames.{
  FrameLibrary, IsDocumented, same_supplier_key, same_hub_key, joined, count,
}
use supply_chain_integration.Analytics.Reconciliation.{
  compared, reconcile_with_pandas, reconcile_with_polars,
}
use supply_chain_integration.Analytics.Synthetic.{Generator}
use supply_chain_integration.Analytics.Sorting.{SameRows-sort_by, Ascending-sort_by}
use supply_chain_integration.Analytics.Engines.{number, results_of, reference, reconcile-reference}
use supply_chain_integration.Analytics.Tables.{
  InventoryReconciliation, AnalyticsDb, reconciliation_summary,
}
use supply_chain_integration.Analytics.Services.{
  mismatch_count, get_analytics_run, list_reconciliations,
}
use supply_chain_integration.Analytics.Stored.{expected}
use supply_chain_integration.Analytics.Benchmark.{BenchmarkReport, benchmark_reconciliation}
use supply_chain_integration.Analytics.Agreement.{benchmark_reconciliation_lem}
use supply_chain_integration.Analytics.Paging.{IsAsked, same_row, list_reconciliations-pages}
use supply_chain_integration.Analytics.Floats.{Floats, IsOrdered}
use supply_chain_integration.Analytics.Risk.{RiskInput, calculate_stockout_risks}
use supply_chain_integration.Analytics.Severity.{IsAssessed, calculate_stockout_risks_lem}

abbrev frames : FrameLibrary
frames = record {
  inner_join = λ suppliers hubs.
      if unique same_supplier_key suppliers && unique same_hub_key hubs
      then some (joined suppliers hubs)
      else none;
  sort_by_record_index = sort_by number;
  supplier_frame_bytes = λ rows. 8 * length rows;
  hub_frame_bytes = λ rows. 8 * length rows;
  joined_frame_bytes = λ rows. 8 * length rows;
}

frames-IsDocumented : IsDocumented frames
frames-IsDocumented = record {
  joins = λ suppliers hubs fit one two. (joined suppliers hubs, rw (one, two) refl, λ p. refl);
  refuses = λ suppliers hubs fit clash. rw clash refl;
  sorts = λ rows. (SameRows-sort_by number rows, Ascending-sort_by number rows);
}

abbrev supplier : ℕ → ℕ → SupplierInventoryRow
supplier index quantity = record {
  record_index = index;
  supplier_code = "ACME";
  product_sku = "SKU";
  warehouse_code = "NORTH";
  reported_quantity = pos quantity;
}

abbrev hub : ℕ → ℕ → HubInventoryRow
hub index quantity = record {
  record_index = index;
  product_sku = "SKU";
  warehouse_code = "NORTH";
  hub_quantity = pos quantity;
}

abbrev suppliers : List SupplierInventoryRow
suppliers = supplier 2 10 ∷ supplier 1 7 ∷ []

abbrev hubs : List HubInventoryRow
hubs = hub 1 7 ∷ hub 2 12 ∷ []

reconcile-reference_example :
    (results_of (reconcile_with_pandas frames suppliers hubs) ≡ reference suppliers hubs)
    × (results_of (reconcile_with_polars frames suppliers hubs) ≡ reference suppliers hubs)
unfolding count
reconcile-reference_example =
    reconcile-reference frames frames-IsDocumented suppliers hubs
      (record { reported = ground arith; recorded = ground arith }) (λ n. ground arith)

-- The reference definition at these rows: in the order of the numbers, a match and a mismatch.
reference_runs :
    map (λ r. r.difference_quantity) (sort_by number (map compared (joined suppliers hubs)))
    ≡ pos 0 ∷ negsuc 1 ∷ []
unfolding sort_by compared joined find insert_by ◌-ℤ◌ wrap64
reference_runs = refl

abbrev rng : Generator
rng = record {
  integers = λ seed size index. 10 * (index % 50);
  choice = λ seed size index. index % 10;
  integers_low = λ seed size index. omega arith;
  choice_low = λ seed size index. omega arith;
}

abbrev no_runs : AnalyticsDb
no_runs = record { next_id = 0; runs = []; reconciliations = []; stockout_risks = [] }

abbrev expected_rows : List ReconciliationResult
expected_rows = expected frames frames rng frames-IsDocumented frames-IsDocumented 3 7

benchmark_reconciliation_lem_example :
    (report : BenchmarkReport) × (benchmark_reconciliation frames frames rng 3 7 2 ≡ ok report)
    × (report.mismatch_count ≡ mismatch_count expected_rows)
    × (report.match_count + report.mismatch_count ≡ 3)
benchmark_reconciliation_lem_example =
    benchmark_reconciliation_lem frames frames rng frames-IsDocumented frames-IsDocumented 3 7 2
      (omega arith) (omega arith)

abbrev stored_row : ℕ → Bool → InventoryReconciliation
stored_row index matches = record {
  id = 10 + index;
  run_id = 4;
  record_index = index;
  supplier_code = "ACME";
  product_sku = "SKU";
  warehouse_code = "NORTH";
  reported_quantity = pos 0;
  hub_quantity = pos 0;
  difference_quantity = pos 0;
  matches = matches;
}

abbrev one_run : AnalyticsDb
one_run = record no_runs {
  next_id = 20;
  runs =
      record {
        id = 4;
        run_type = AnalyticsRunType.inventory_reconciliation;
        engine = AnalyticsEngine.pandas;
        dataset_seed = 7;
        input_rows = 3;
        duration_ms = pos 0;
        summary = reconciliation_summary 1 2 0;
      }
      ∷ [];
  reconciliations = stored_row 2 false ∷ stored_row 0 false ∷ stored_row 1 true ∷ [];
}

abbrev first_page : List InventoryReconciliation
first_page = stored_row 0 false ∷ []

list_reconciliations-pages_example :
    (list_reconciliations 4 true 0 2 one_run ≡ ok (stored_row 0 false ∷ stored_row 2 false ∷ []))
    × All (IsAsked 4 true one_run) first_page
    × (◌≡◌ {A = ℕ} 0 0
        → length first_page < 1
        → All
            (λ r. IsAsked 4 true one_run r → any (same_row 4 true one_run r) first_page ≡ true)
            one_run.reconciliations)
unfolding list_reconciliations get_analytics_run find select sort_by insert_by
list_reconciliations-pages_example =
    list_reconciliations-pages 4 true one_run 0 1 1 first_page (stored_row 2 false ∷ []) refl refl

abbrev leb_ℤ : ℤ → ℤ → Bool
leb_ℤ a b = not (ltb_ℤ b a)

-- Whole numbers; the sum, the mean and the quantiles of a list are its first number.
abbrev first : List ℤ → ℤ
first [] = pos 0
first (x ∷ xs) = x

abbrev integers : Floats ℤ
integers = record {
  zero = pos 0;
  add = λ a b. a +ℤ b;
  sub = λ a b. a -ℤ b;
  mul = λ a b. pos (pos_part a * pos_part b);
  of_ℕ = pos;
  floor = λ a. a;
  rint = λ a. a;
  neg = λ a. pos 0 -ℤ a;
  abs = λ a. if ltb_ℤ a (pos 0) then pos 0 -ℤ a else a;
  square = λ a. pos (pos_part a * pos_part a);
  sqrt = λ a. a;
  div = λ a b. pos (pos_part a / pos_part b);
  maximum = λ a b. if ltb_ℤ a b then b else a;
  le = leb_ℤ;
  eq = eq_ℤ;
  lt = ltb_ℤ;
  sum = first;
  mean = first;
  quantile = λ xs k. first xs;
  quantized = λ places a. if ltb_ℤ a (pos 0) then a else pos (1000000 * pos_part a);
}

integers-IsOrdered : IsOrdered integers
integers-IsOrdered = record {
  zero_number = refl;
  le_number = λ a b h. ground arith;
  le_refl = λ a h. ground arith;
  le_trans = λ a b c h h'. ground arith;
  le_antisym = λ a b h h'. ground arith;
  eq_le = λ a b h. ground arith;
  le_maximum = λ a b h. ground arith;
  div_nonnegative = λ a b h h' h''. ground arith;
  div_number = λ a b h. ground arith;
}

abbrev risk : ℕ → ℕ → RiskInput ℤ
risk index forecast = record {
  record_index = index;
  product_sku = "SKU";
  warehouse_code = "NORTH";
  on_hand_quantity = pos 5;
  reserved_quantity = pos 2;
  inbound_quantity = pos 1;
  forecast_quantity = pos forecast;
  actual_demand_quantity = pos 3;
}

calculate_stockout_risks_lem_example :
    IsAssessed integers integers-IsOrdered
      (risk 0 9 ∷ risk 1 2 ∷ [])
      (calculate_stockout_risks integers (risk 0 9 ∷ risk 1 2 ∷ []))
calculate_stockout_risks_lem_example =
    calculate_stockout_risks_lem integers integers-IsOrdered (risk 0 9) (risk 1 2 ∷ [])
