-- ===== src/Analytics/Frames.antt =====
-- What the two data frame libraries, pandas and polars, do for the reconciliation: a parameter, and
-- their documented behaviour as laws about it.
use supply_chain_integration.Base.{
  ℕ, ◌+◌, ◌≤◌, ◌≡◌, String, Bool, true, ◌&&◌, Option, none, some, List, [], ◌∷◌, ◌==◌, str_eq, find,
  unique, All, if◌then◌else◌,
}
use supply_chain_integration.Base.Int.{ℤ}
use supply_chain_integration.Analytics.Words.{fits_int64}
use supply_chain_integration.Analytics.Types.{
  SupplierInventoryRow, HubInventoryRow, ReconciliationResult,
}

-- A row of the joined frame.
pub record JoinedRow : Type 0 where
  pub record_index : ℕ
  pub supplier_code : String
  pub product_sku : String
  pub warehouse_code : String
  pub reported_quantity : ℤ
  pub hub_quantity : ℤ

-- A join with `validate` raises where a key is not unique on a side: that is `none`. The sizes are
-- those of the three frames in memory.
pub record FrameLibrary : Type 0 where
  pub inner_join : List SupplierInventoryRow → List HubInventoryRow → Option (List JoinedRow)
  pub sort_by_record_index : List ReconciliationResult → List ReconciliationResult
  pub supplier_frame_bytes : List SupplierInventoryRow → ℕ
  pub hub_frame_bytes : List HubInventoryRow → ℕ
  pub joined_frame_bytes : List ReconciliationResult → ℕ

-- The three columns that the frames are joined on.
abbrev pub has_key : SupplierInventoryRow → HubInventoryRow → Bool
has_key s h =
    s.record_index == h.record_index
    && str_eq s.product_sku h.product_sku
    && str_eq s.warehouse_code h.warehouse_code

abbrev pub same_supplier_key : SupplierInventoryRow → SupplierInventoryRow → Bool
same_supplier_key a b =
    a.record_index == b.record_index
    && str_eq a.product_sku b.product_sku
    && str_eq a.warehouse_code b.warehouse_code

abbrev pub same_hub_key : HubInventoryRow → HubInventoryRow → Bool
same_hub_key a b =
    a.record_index == b.record_index
    && str_eq a.product_sku b.product_sku
    && str_eq a.warehouse_code b.warehouse_code

abbrev pub join_rows : SupplierInventoryRow → HubInventoryRow → JoinedRow
join_rows s h = record {
  record_index = s.record_index;
  supplier_code = s.supplier_code;
  product_sku = s.product_sku;
  warehouse_code = s.warehouse_code;
  reported_quantity = s.reported_quantity;
  hub_quantity = h.hub_quantity;
}

abbrev pub join_found :
    SupplierInventoryRow → Option HubInventoryRow → List JoinedRow → List JoinedRow
join_found s none rows = rows
join_found s (some h) rows = join_rows s h ∷ rows

-- The rows of an inner join on unique keys, in the order of the first frame.
unfoldable pub joined : List SupplierInventoryRow → List HubInventoryRow → List JoinedRow
unfolding find
joined [] hubs = []
joined (s ∷ suppliers) hubs = join_found s (find (has_key s) hubs) (joined suppliers hubs)

-- How many rows pass a test.
module _ {ℓ} {A : Type ℓ} where
  unfoldable pub count : (A → Bool) → List A → ℕ
  count p [] = 0
  count p (x ∷ xs) = (if p x then 1 else 0) + count p xs

  -- The same rows, each as often, in any order.
  abbrev pub SameRows : List A → List A → Type ℓ
  SameRows xs ys = (p : A → Bool) → count p xs ≡ count p ys

  -- No row has a smaller number than one before it.
  abbrev pub AtLeast : (A → ℕ) → ℕ → List A → Type 0
  AtLeast key n [] = Unit
  AtLeast key n (x ∷ xs) = (n ≤ key x) × AtLeast key n xs

  abbrev pub Ascending : (A → ℕ) → List A → Type 0
  Ascending key [] = Unit
  Ascending key (x ∷ xs) = AtLeast key (key x) xs × Ascending key xs

-- The quantities of both sides fit columns of `int64`. With larger ones one of the libraries raises
-- and the other keeps Python's integers.
pub record FitColumns (suppliers : List SupplierInventoryRow) (hubs : List HubInventoryRow)
    : Type 0 where
  pub reported : All (λ s. fits_int64 s.reported_quantity ≡ true) suppliers
  pub recorded : All (λ h. fits_int64 h.hub_quantity ≡ true) hubs

-- The documentation of both libraries, for quantities that fit: a one-to-one inner join raises exactly where a key is not
-- unique on a side, and else has the rows of the join, in an order of its own; sorting keeps the
-- rows and puts them in ascending order.
pub record IsDocumented (lib : FrameLibrary) : Type 0 where
  pub joins :
      (suppliers : List SupplierInventoryRow) (hubs : List HubInventoryRow)
      → FitColumns suppliers hubs
      → unique same_supplier_key suppliers ≡ true
      → unique same_hub_key hubs ≡ true
      → (rows : List JoinedRow) × (lib.inner_join suppliers hubs ≡ some rows)
        × SameRows rows (joined suppliers hubs)
  pub refuses :
      (suppliers : List SupplierInventoryRow) (hubs : List HubInventoryRow)
      → FitColumns suppliers hubs
      → (unique same_supplier_key suppliers && unique same_hub_key hubs) ≡ Bool.false
      → lib.inner_join suppliers hubs ≡ none
  pub sorts :
      (rows : List ReconciliationResult)
      → SameRows (lib.sort_by_record_index rows) rows
        × Ascending (λ r. r.record_index) (lib.sort_by_record_index rows)
