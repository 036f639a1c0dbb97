-- ===== src/Analytics/Engines.antt =====
-- Both libraries give the results of one reference definition, as long as they do what their
-- documentation says.
use native.Mathlib.Decide.{ℕ_discrete}
use supply_chain_integration.Base.{
  ℕ, ◌≤◌, ◌≡◌, sym, ◌∙◌, Bool, true, false, ◌&&◌, Bool-cases, inl, inr, some, List, [], ◌∷◌, map,
  length, length-map, ◌==◌, unique, sort_by, String, str_eq, eq_iff, if◌then◌else◌, arith,
}
use supply_chain_integration.Domain.Errors.{Result, ok, err, other_error}
use supply_chain_integration.Analytics.Types.{
  SupplierInventoryRow, HubInventoryRow, ReconciliationResult, ReconciliationExecution,
}
use supply_chain_integration.Analytics.Frames.{
  FrameLibrary, JoinedRow, FitColumns, IsDocumented, joined, same_supplier_key, same_hub_key, count,
  SameRows,
}
use supply_chain_integration.Analytics.Ordering.{Distinct, Ascending-unique}
use supply_chain_integration.Analytics.Sorting.{
  SameRows-length, count-map, SameRows-map, SameRows-sort_by, Ascending-sort_by,
}
use supply_chain_integration.Analytics.Reconciliation.{
  compared, reconcile_with_pandas, reconcile_with_polars,
}

abbrev pub number : ReconciliationResult → ℕ
number r = r.record_index

-- No number stands for two rows of the supplier.
abbrev pub DistinctRows : List SupplierInventoryRow → Type 0
DistinctRows suppliers = (n : ℕ) → count (λ s. s.record_index == n) suppliers ≤ 1

-- A row of the join has the number of a row of the supplier, which has one partner at most.
count-joined :
    (n : ℕ) (suppliers : List SupplierInventoryRow) (hubs : List HubInventoryRow)
    → count (λ r. r.record_index == n) (joined suppliers hubs)
      ≤ count (λ s. s.record_index == n) suppliers
unfolding count joined
count-joined n [] hubs = omega arith
count-joined n (s ∷ suppliers) hubs = ground (arith, count-joined n suppliers hubs)

String-discrete : Discrete String
String-discrete a b = elim (Bool-cases (str_eq a b)) [
  | inl e ↦ yes ((eq_iff a b).0 e)
  | inr e ↦ no (λ h. ground (arith, (eq_iff a b).1 h))
]

ReconciliationResult-discrete : Discrete ReconciliationResult
ReconciliationResult-discrete = hlevel (ℕ_discrete, String-discrete)

-- What both functions are to return, by an insertion sort of the rows of the join.
abbrev one_to_one : List SupplierInventoryRow → List HubInventoryRow → Bool
one_to_one suppliers hubs = unique same_supplier_key suppliers && unique same_hub_key hubs

abbrev pub reconciled : List SupplierInventoryRow → List HubInventoryRow → List ReconciliationResult
reconciled suppliers hubs = sort_by number (map compared (joined suppliers hubs))

abbrev all_matched : List SupplierInventoryRow → List HubInventoryRow → Bool
all_matched suppliers hubs =
    one_to_one suppliers hubs
    && length (joined suppliers hubs) == length suppliers
    && length (joined suppliers hubs) == length hubs

unfoldable pub reference :
    List SupplierInventoryRow → List HubInventoryRow → Result (List ReconciliationResult)
reference suppliers hubs =
    if all_matched suppliers hubs then ok (reconciled suppliers hubs) else err other_error

-- The results without the size of the frames in memory.
abbrev pub results_of : Result ReconciliationExecution → Result (List ReconciliationResult)
results_of (ok execution) = ok execution.results
results_of (err e) = err e

module _ (lib : FrameLibrary) (documented : IsDocumented lib)
    (suppliers : List SupplierInventoryRow) (hubs : List HubInventoryRow)
    (fit : FitColumns suppliers hubs) (distinct : DistinctRows suppliers) where
  Distinct-same :
      (rows : List ReconciliationResult)
      → SameRows rows (map compared (joined suppliers hubs))
      → Distinct number ReconciliationResult-discrete rows
  unfolding compared
  Distinct-same rows same n = ground (
    arith,
    same (λ r. number r == n),
    count-map compared (λ r. number r == n) (joined suppliers hubs),
    count-joined n suppliers hubs,
    distinct n,
  )

  sorted-reconciled :
      (rows : List JoinedRow)
      → SameRows rows (joined suppliers hubs)
      → lib.sort_by_record_index (map compared rows) ≡ reconciled suppliers hubs
  sorted-reconciled rows same =
      let (kept, ascending) = documented.sorts (map compared rows) in
      let all = map compared (joined suppliers hubs) in
      let there : SameRows (lib.sort_by_record_index (map compared rows)) all =
        λ p. kept p ∙ SameRows-map compared rows (joined suppliers hubs) same p in
      Ascending-unique number ReconciliationResult-discrete
        (lib.sort_by_record_index (map compared rows)) (reconciled suppliers hubs) ascending
        (Ascending-sort_by number all) (Distinct-same _ there)
        (Distinct-same _ (SameRows-sort_by number all))
        (λ p. there p ∙ sym (SameRows-sort_by number all p))

  length-sorted :
      (rows : List JoinedRow) → length (lib.sort_by_record_index (map compared rows)) ≡ length rows
  length-sorted rows =
      SameRows-length _ _ (documented.sorts (map compared rows)).0 ∙ length-map compared rows

  -- Both functions on the rows that a join gives.
  pandas-joined :
      (rows : List JoinedRow)
      → one_to_one suppliers hubs ≡ true
      → lib.inner_join suppliers hubs ≡ some rows
      → SameRows rows (joined suppliers hubs)
      → results_of (reconcile_with_pandas lib suppliers hubs) ≡ reference suppliers hubs
  unfolding reconcile_with_pandas reference
  pandas-joined rows unique_keys e same =
      ground (arith, SameRows-length rows (joined suppliers hubs) same, sorted-reconciled rows same)

  polars-joined :
      (rows : List JoinedRow)
      → one_to_one suppliers hubs ≡ true
      → lib.inner_join suppliers hubs ≡ some rows
      → SameRows rows (joined suppliers hubs)
      → results_of (reconcile_with_polars lib suppliers hubs) ≡ reference suppliers hubs
  unfolding reconcile_with_polars reference
  polars-joined rows unique_keys e same = ground (
    arith,
    SameRows-length rows (joined suppliers hubs) same,
    length-sorted rows,
    sorted-reconciled rows same,
  )

  refused :
      one_to_one suppliers hubs ≡ false
      → (results_of (reconcile_with_pandas lib suppliers hubs) ≡ reference suppliers hubs)
        × (results_of (reconcile_with_polars lib suppliers hubs) ≡ reference suppliers hubs)
  unfolding reconcile_with_pandas reconcile_with_polars reference
  refused e = ground (arith, documented.refuses suppliers hubs fit e)

  -- With a library that does what its documentation says, on quantities that fit 64 bits and
  -- supplier rows with distinct numbers, both functions give the results of the reference definition: the rows of the join in the order
  -- of their numbers where keys are unique on both sides and every row has a partner, and else an
  -- error.
  pub reconcile-reference :
      (results_of (reconcile_with_pandas lib suppliers hubs) ≡ reference suppliers hubs)
      × (results_of (reconcile_with_polars lib suppliers hubs) ≡ reference suppliers hubs)
  reconcile-reference = elim (Bool-cases (one_to_one suppliers hubs)) [
    | inr clash ↦ refused clash
    | inl unique_keys ↦
        let (rows, e, same) =
          documented.joins suppliers hubs fit (ground (arith, unique_keys))
            (ground (arith, unique_keys)) in
        (pandas-joined rows unique_keys e same, polars-joined rows unique_keys e same)
  ]
