-- ===== src/Analytics/Reconciliation.antt =====
-- analytics/reconciliation.py: the two functions that compare the reported with the recorded
-- quantities, one for each library. They test the sizes at different places.
use supply_chain_integration.Base.{
  ℕ, ◌+◌, Bool, not, ◌||◌, Option, none, some, List, ◌==◌, length, map, if◌then◌else◌,
}
use supply_chain_integration.Base.Int.{pos, ◌-ℤ◌, eq_ℤ}
use supply_chain_integration.Domain.Errors.{Result, ok, err, other_error}
use supply_chain_integration.Analytics.Types.{
  SupplierInventoryRow, HubInventoryRow, ReconciliationResult, ReconciliationExecution,
}
use supply_chain_integration.Analytics.Words.{wrap64}
use supply_chain_integration.Analytics.Frames.{FrameLibrary, JoinedRow}

-- The columns `difference_quantity` and `matches`, of `int64` numbers.
unfoldable pub compared : JoinedRow → ReconciliationResult
compared row =
    let difference = wrap64 (row.reported_quantity -ℤ row.hub_quantity) in
    record {
      record_index = row.record_index;
      supplier_code = row.supplier_code;
      product_sku = row.product_sku;
      warehouse_code = row.warehouse_code;
      reported_quantity = row.reported_quantity;
      hub_quantity = row.hub_quantity;
      difference_quantity = difference;
      matches = eq_ℤ difference (pos 0);
    }

module _ (lib : FrameLibrary) (suppliers : List SupplierInventoryRow)
    (hubs : List HubInventoryRow) where
  abbrev executed : List ReconciliationResult → ReconciliationExecution
  executed results = record {
    results = results;
    dataframe_bytes =
        lib.supplier_frame_bytes suppliers
        + lib.hub_frame_bytes hubs
        + lib.joined_frame_bytes results;
  }

  abbrev other_size : ℕ → Bool
  other_size n = not (n == length suppliers) || not (n == length hubs)

  abbrev after_merge : Option (List JoinedRow) → Result ReconciliationExecution
  after_merge none = err other_error
  after_merge (some rows) =
      if other_size (length rows)
      then err other_error
      else ok (executed (lib.sort_by_record_index (map compared rows)))

  unfoldable pub reconcile_with_pandas : Result ReconciliationExecution
  reconcile_with_pandas = after_merge (lib.inner_join suppliers hubs)

  abbrev after_join : Option (List JoinedRow) → Result ReconciliationExecution
  after_join none = err other_error
  after_join (some rows) =
      let results = lib.sort_by_record_index (map compared rows) in
      if other_size (length results) then err other_error else ok (executed results)

  unfoldable pub reconcile_with_polars : Result ReconciliationExecution
  reconcile_with_polars = after_join (lib.inner_join suppliers hubs)
