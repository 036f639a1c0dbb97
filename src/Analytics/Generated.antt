-- ===== src/Analytics/Generated.antt =====
-- The generated inputs: distinct numbers, and a partner for every row.
use supply_chain_integration.Base.{
  All, All-drop, drop, ℕ, zero, suc, ◌+◌, ◌≤◌, ◌<◌, ◌≡◌, refl, Bool, true, false, some, List, [],
  ◌∷◌, map, insert_by, sort_by, length, find, any, unique, Bool-cases, inl, inr, ◌==◌, ==_iff,
  eq_iff, arith,
}
use supply_chain_integration.Base.Int.{ℤ, pos, pos_part, ◌+ℤ◌}
use supply_chain_integration.Analytics.Words.{fits_int64}
use supply_chain_integration.Domain.Errors.{ok}
use supply_chain_integration.Analytics.Types.{HubInventoryRow, ReconciliationResult}
use supply_chain_integration.Analytics.Frames.{
  FitColumns, has_key, same_supplier_key, same_hub_key, joined, join_rows, JoinedRow, count,
  AtLeast,
}
use supply_chain_integration.Analytics.Reconciliation.{compared}
use supply_chain_integration.Analytics.Engines.{number, reference}
use supply_chain_integration.Analytics.Synthetic.{
  Generator, deltas, first_or_zero, at_least_zero, generated_reported, supplier_row, hub_row,
  supplier_rows, hub_rows,
}

abbrev pub same_number : ReconciliationResult → ReconciliationResult → Bool
same_number a b = a.record_index == b.record_index

insert_by-first {ℓ} :
    {A : Type ℓ} (key : A → ℕ) (a : A) (xs : List A)
    → AtLeast key (key a) xs
    → insert_by key a xs ≡ a ∷ xs
unfolding insert_by
insert_by-first key a [] least = refl
insert_by-first key a (x ∷ xs) least = ground (arith, least.0)

first_or_zero-small :
    (ds : List ℤ) → All (λ d. pos_part d ≤ 25) ds → pos_part (first_or_zero ds) ≤ 25
first_or_zero-small [] h = omega arith
first_or_zero-small (d ∷ ds) h = h.0

at_least_zero-fits :
    (n : ℕ) (d : ℤ) → n < 500 → pos_part d ≤ 25 → fits_int64 (at_least_zero (pos n +ℤ d)) ≡ true
unfolding ◌+ℤ◌
at_least_zero-fits n d h h' = ground arith

module _ (rng : Generator) (seed size : ℕ) where
  delta_small : (k : ℕ) → pos_part (first_or_zero (drop k deltas)) ≤ 25
  delta_small k =
      first_or_zero-small (drop k deltas) (All-drop (λ d. pos_part d ≤ 25) k deltas (ground arith))

  reported_fits :
      (n j : ℕ) → All (λ s. fits_int64 s.reported_quantity ≡ true) (supplier_rows rng seed size n j)
  unfolding supplier_rows supplier_row generated_reported
  reported_fits zero j = tt
  reported_fits (suc n) j = (
    at_least_zero-fits (rng.integers seed size j) _ (rng.integers_low seed size j)
        (delta_small (rng.choice seed size j)),
    reported_fits n (j + 1),
  )

  recorded_fits :
      (n j : ℕ) → All (λ h. fits_int64 h.hub_quantity ≡ true) (hub_rows rng seed size n j)
  unfolding hub_rows hub_row
  recorded_fits zero j = tt
  recorded_fits (suc n) j = (ground (arith, rng.integers_low seed size j), recorded_fits n (j + 1))

  pub generated-FitColumns :
      (n : ℕ) → FitColumns (supplier_rows rng seed size n 0) (hub_rows rng seed size n 0)
  generated-FitColumns n = record { reported = reported_fits n 0; recorded = recorded_fits n 0 }

  -- No row from index `j` on has the number `i`, if `i` is before `j`.
  count-before :
      (i n j : ℕ) → i < j → count (λ s. s.record_index == i) (supplier_rows rng seed size n j) ≡ 0
  unfolding count supplier_rows
  count-before i zero j h = refl
  count-before i (suc n) j h = ground (arith, count-before i n (j + 1))

  pub supplier_rows-DistinctRows :
      (i n j : ℕ) → count (λ s. s.record_index == i) (supplier_rows rng seed size n j) ≤ 1
  unfolding count supplier_rows
  supplier_rows-DistinctRows i zero j = omega arith
  supplier_rows-DistinctRows i (suc n) j =
      ground (arith, count-before i n (j + 1), supplier_rows-DistinctRows i n (j + 1))

  supplier-apart :
      (i n j : ℕ)
      → i < j
      → any (same_supplier_key (supplier_row rng seed size i)) (supplier_rows rng seed size n j)
        ≡ false
  unfolding any supplier_rows supplier_row
  supplier-apart i zero j h = refl
  supplier-apart i (suc n) j h = ground (arith, supplier-apart i n (j + 1))

  supplier-unique : (n j : ℕ) → unique same_supplier_key (supplier_rows rng seed size n j) ≡ true
  unfolding unique supplier_rows
  supplier-unique zero j = refl
  supplier-unique (suc n) j = ground (arith, supplier-apart j n (j + 1), supplier-unique n (j + 1))

  hub-apart :
      (i n j : ℕ)
      → i < j
      → any (same_hub_key (hub_row rng seed size i)) (hub_rows rng seed size n j) ≡ false
  unfolding any hub_rows hub_row
  hub-apart i zero j h = refl
  hub-apart i (suc n) j h = ground (arith, hub-apart i n (j + 1))

  hub-unique : (n j : ℕ) → unique same_hub_key (hub_rows rng seed size n j) ≡ true
  unfolding unique hub_rows
  hub-unique zero j = refl
  hub-unique (suc n) j = ground (arith, hub-apart j n (j + 1), hub-unique n (j + 1))

  -- Rows with other numbers are no partners.
  has_key-other :
      (i j : ℕ)
      → (i == j) ≡ false
      → has_key (supplier_row rng seed size i) (hub_row rng seed size j) ≡ false
  unfolding supplier_row hub_row
  has_key-other i j h = ground arith

  has_key-own : (i : ℕ) → has_key (supplier_row rng seed size i) (hub_row rng seed size i) ≡ true
  unfolding supplier_row hub_row
  has_key-own i =
      let s = supplier_row rng seed size i in
      ground (
        arith,
        (eq_iff s.product_sku s.product_sku).1 refl,
        (eq_iff s.warehouse_code s.warehouse_code).1 refl,
      )

  find-partner :
      (i n j : ℕ)
      → j ≤ i
      → i < j + n
      → find (has_key (supplier_row rng seed size i)) (hub_rows rng seed size n j)
        ≡ some (hub_row rng seed size i)
  unfolding find hub_rows
  find-partner i zero j low high = absurd (omega arith)
  find-partner i (suc n) j low high = elim (Bool-cases (j == i)) [
    | inl e ↦ let e' : j ≡ i = (==_iff j i).0 e in rw (e', has_key-own i) refl
    | inr other ↦
        rw (has_key-other i j (ground arith))
          (find-partner i n (j + 1) (ground arith) (omega arith))
  ]

  -- The rows of the join, in the order of their numbers.
  unfoldable pub pairs : ℕ → ℕ → List JoinedRow
  pairs zero j = []
  pairs (suc n) j =
      join_rows (supplier_row rng seed size j) (hub_row rng seed size j) ∷ pairs n (j + 1)

  pub length-pairs : (n j : ℕ) → length (pairs n j) ≡ n
  unfolding pairs
  length-pairs zero j = refl
  length-pairs (suc n) j = ground (arith, length-pairs n (j + 1))

  length-supplier_rows : (n j : ℕ) → length (supplier_rows rng seed size n j) ≡ n
  unfolding supplier_rows
  length-supplier_rows zero j = refl
  length-supplier_rows (suc n) j = ground (arith, length-supplier_rows n (j + 1))

  length-hub_rows : (n j : ℕ) → length (hub_rows rng seed size n j) ≡ n
  unfolding hub_rows
  length-hub_rows zero j = refl
  length-hub_rows (suc n) j = ground (arith, length-hub_rows n (j + 1))

  joined-pairs :
      (n j : ℕ) (hubs : List HubInventoryRow)
      → ((i : ℕ)
          → j ≤ i
          → i < j + n
          → find (has_key (supplier_row rng seed size i)) hubs ≡ some (hub_row rng seed size i))
      → joined (supplier_rows rng seed size n j) hubs ≡ pairs n j
  unfolding joined supplier_rows pairs
  joined-pairs zero j hubs partner = refl
  joined-pairs (suc n) j hubs partner =
      let rest =
        joined-pairs n (j + 1) hubs (λ i low high. partner i (omega arith) (omega arith)) in
      rw (partner j (omega arith) (omega arith), rest) refl

  AtLeast-pairs : (m n j : ℕ) → m ≤ j → AtLeast number m (map compared (pairs n j))
  unfolding pairs supplier_row compared
  AtLeast-pairs m zero j h = tt
  AtLeast-pairs m (suc n) j h = (h, AtLeast-pairs m n (j + 1) (omega arith))

  first-AtLeast :
      (n j : ℕ)
      → AtLeast number
          (number (compared (join_rows (supplier_row rng seed size j) (hub_row rng seed size j))))
          (map compared (pairs n (j + 1)))
  unfolding compared supplier_row
  first-AtLeast n j = AtLeast-pairs j n (j + 1) (omega arith)

  sorted-pairs : (n j : ℕ) → sort_by number (map compared (pairs n j)) ≡ map compared (pairs n j)
  unfolding sort_by pairs
  sorted-pairs zero j = refl
  sorted-pairs (suc n) j =
      rw (sorted-pairs n (j + 1)) (insert_by-first number _ _ (first-AtLeast n j))

  -- The reference definition on the generated inputs.
  pub reference-generated :
      (n : ℕ)
      → reference (supplier_rows rng seed size n 0) (hub_rows rng seed size n 0)
        ≡ ok (map compared (pairs n 0))
  unfolding reference
  reference-generated n =
      let together =
        joined-pairs n 0 (hub_rows rng seed size n 0)
          (λ i low high. find-partner i n 0 low (omega arith)) in
      ground (
        arith,
        together,
        supplier-unique n 0,
        hub-unique n 0,
        length-pairs n 0,
        length-supplier_rows n 0,
        length-hub_rows n 0,
        sorted-pairs n 0,
      )

  -- The results have distinct numbers.
  pair_result : ℕ → ReconciliationResult
  pair_result j = compared (join_rows (supplier_row rng seed size j) (hub_row rng seed size j))

  results-apart :
      (i n j : ℕ) → i < j → any (same_number (pair_result i)) (map compared (pairs n j)) ≡ false
  unfolding any pairs pair_result compared supplier_row
  results-apart i zero j h = refl
  results-apart i (suc n) j h = ground (arith, results-apart i n (j + 1))

  pub results-unique : (n j : ℕ) → unique same_number (map compared (pairs n j)) ≡ true
  unfolding unique pairs pair_result
  results-unique zero j = refl
  results-unique (suc n) j = ground (arith, results-apart j n (j + 1), results-unique n (j + 1))
