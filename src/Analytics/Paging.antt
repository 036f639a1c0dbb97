-- ===== src/Analytics/Paging.antt =====
-- The pages of the stored rows.
use supply_chain_integration.Base.{
  ℕ, ◌+◌, ◌<◌, ◌≡◌, sym, ap, subst, ◌∙◌, ◌==◌, Bool, true, false, Bool-cases, any, length, All-mono,
  All-selected, any-sort_by, take_whole, List, ◌++◌, take, drop, sort_by, All, All-take, All-drop,
  All-sort_by, All-select_test, pages-append, inl, inr, select, arith,
}
use supply_chain_integration.Domain.Errors.{ok, Result-cases}
use supply_chain_integration.Store.Rows.{Uuid}
use supply_chain_integration.Analytics.Tables.{InventoryReconciliation, AnalyticsDb}
use supply_chain_integration.Analytics.Services.{
  get_analytics_run, wanted_reconciliation, list_reconciliations,
}

module _ (run_id : Uuid) (only_mismatches : Bool) (db : AnalyticsDb) where
  abbrev wanted : InventoryReconciliation → Bool
  wanted r = wanted_reconciliation run_id only_mismatches r

  rows : List InventoryReconciliation
  rows = sort_by (λ r. r.record_index) (select wanted db.reconciliations)

  listed :
      (offset limit : ℕ) (page : List InventoryReconciliation)
      → list_reconciliations run_id only_mismatches offset limit db ≡ ok page
      → (page ≡ take limit (drop offset rows))
        × ((offset' limit' : ℕ)
            → list_reconciliations run_id only_mismatches offset' limit' db
              ≡ ok (take limit' (drop offset' rows)))
  unfolding list_reconciliations rows
  listed offset limit page h = elim (Result-cases (get_analytics_run run_id db)) [
    | inl (e, failed) ↦ absurd (ground arith)
    | inr ((run, db'), found) ↦ (ground arith, λ offset' limit'. ground arith)
  ]

  -- A row of the run and, where only mismatches are asked for, one of them.
  abbrev pub IsAsked : InventoryReconciliation → Type 0
  IsAsked r = (r.run_id ≡ run_id) × (only_mismatches ≡ true → r.matches ≡ false)

  wanted-IsAsked : (r : InventoryReconciliation) → wanted r ≡ true → IsAsked r
  wanted-IsAsked r h = (ground arith, λ only. ground arith)

  IsAsked-wanted : (r : InventoryReconciliation) → IsAsked r → wanted r ≡ true
  IsAsked-wanted r (own, mismatch) = elim (Bool-cases only_mismatches) [
    | inl only ↦ ground (arith, mismatch only)
    | inr all ↦ ground arith
  ]

  abbrev pub same_row : InventoryReconciliation → InventoryReconciliation → Bool
  same_row a b = a.id == b.id

  listed_whole :
      (limit : ℕ) (r : InventoryReconciliation)
      → length (take limit rows) < limit
      → any (same_row r) (select wanted db.reconciliations) ≡ true
      → any (same_row r) (take limit rows) ≡ true
  unfolding rows
  listed_whole limit r short h =
      ap (any (same_row r)) (take_whole limit rows short)
      ∙ any-sort_by (same_row r) (λ r. r.record_index) (select wanted db.reconciliations)
      ∙ h

  -- Two pages of the stored rows, one right after the other, are the page of their joint length.
  -- Every row of a page belongs to the run and, where only mismatches are asked for, is one; and a
  -- first page that is not full has all stored rows that are so.
  pub list_reconciliations-pages :
      (offset limit more : ℕ) (page next : List InventoryReconciliation)
      → list_reconciliations run_id only_mismatches offset limit db ≡ ok page
      → list_reconciliations run_id only_mismatches (offset + limit) more db ≡ ok next
      → (list_reconciliations run_id only_mismatches offset (limit + more) db ≡ ok (page ++ next))
        × All IsAsked page
        × (offset ≡ 0
            → length page < limit
            → All (λ r. IsAsked r → any (same_row r) page ≡ true) db.reconciliations)
  unfolding rows
  list_reconciliations-pages offset limit more page next h h' =
      let (e, all) = listed offset limit page h in
      let (e', all') = listed (offset + limit) more next h' in
      (
        rw (e, e', pages-append offset limit more rows) (all offset (limit + more)),
        rw e (
            All-take IsAsked limit _ (
              All-drop IsAsked offset _ (
                All-sort_by IsAsked (λ r. r.record_index) _
                  (All-mono _ IsAsked _ wanted-IsAsked
                    (All-select_test wanted db.reconciliations))))),
        λ first short.
            let whole : page ≡ take limit rows = e ∙ ap (λ n. take limit (drop n rows)) first in
            All-mono _ _ db.reconciliations
              (λ r f asked.
                subst (λ p. any (same_row r) p ≡ true) (sym whole)
                  (listed_whole limit r (subst (λ p. length p < limit) whole short)
                    (f (IsAsked-wanted r asked))))
              (All-selected same_row wanted db.reconciliations (λ r. ground arith)),
      )
