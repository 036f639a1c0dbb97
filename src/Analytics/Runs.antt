-- ===== src/Analytics/Runs.antt =====
-- What a run of the reconciliation stores.
use supply_chain_integration.Base.{
  unique-together, ℕ, suc, ◌+◌, ◌≤◌, ◌<◌, ◌≡◌, refl, Bool, true, false, List, [], ◌∷◌, length, ltb,
  any, every, unique, every-append, arith,
}
use supply_chain_integration.Analytics.Types.{ReconciliationResult}
use supply_chain_integration.Analytics.Tables.{
  AnalyticsRun, InventoryReconciliation, AnalyticsDb, run_checks, same_reconciliation,
  analytics_constraints_hold,
}
use supply_chain_integration.Analytics.Generated.{same_number}
use supply_chain_integration.Analytics.Services.{
  reconciliation_row, reconciliation_rows, add_reconciliation_run,
}

-- The rows of earlier runs name runs with smaller ids.
abbrev older_run : ℕ → InventoryReconciliation → Bool
older_run next_id r = ltb r.run_id next_id

pub record IsAnalyticsSound (db : AnalyticsDb) : Type 0 where
  pub holds : analytics_constraints_hold db ≡ true
  pub older_rows : every (older_run db.next_id) db.reconciliations ≡ true
  pub older_runs : every (λ run. ltb run.id db.next_id) db.runs ≡ true

-- A run id that no row has yet.
rows-apart :
    (id run_id : ℕ) (results : List ReconciliationResult) (x : InventoryReconciliation)
    → ltb x.run_id run_id ≡ true
    → any (same_reconciliation x) (reconciliation_rows id run_id results) ≡ false
unfolding any reconciliation_rows
rows-apart id run_id [] x h = refl
rows-apart id run_id (r ∷ rs) x h = ground (arith, rows-apart (suc id) run_id rs x h)

rows-any :
    (id run_id : ℕ) (r : ReconciliationResult) (results : List ReconciliationResult)
    (x : InventoryReconciliation)
    → x.run_id ≡ run_id
    → x.record_index ≡ r.record_index
    → any (same_reconciliation x) (reconciliation_rows id run_id results)
      ≡ any (same_number r) results
unfolding any reconciliation_rows
rows-any id run_id r [] x e e' = refl
rows-any id run_id r (r' ∷ rs) x e e' = ground (arith, rows-any (suc id) run_id r rs x e e')

rows-unique :
    (id run_id : ℕ) (results : List ReconciliationResult)
    → unique same_number results ≡ true
    → unique same_reconciliation (reconciliation_rows id run_id results) ≡ true
unfolding unique reconciliation_rows
rows-unique id run_id [] h = refl
rows-unique id run_id (r ∷ rs) h = ground (
  arith,
  rows-any (suc id) run_id r rs (reconciliation_row id run_id r) refl refl,
  rows-unique (suc id) run_id rs (ground arith),
)

every-weaken_id :
    (n m : ℕ) (rows : List InventoryReconciliation)
    → n ≤ m
    → every (older_run n) rows ≡ true
    → every (older_run m) rows ≡ true
unfolding every
every-weaken_id n m [] h e = refl
every-weaken_id n m (r ∷ rs) h e = ground (arith, every-weaken_id n m rs h)

every-run_id :
    (n m : ℕ) (runs : List AnalyticsRun)
    → n ≤ m
    → every (λ run. ltb run.id n) runs ≡ true
    → every (λ run. ltb run.id m) runs ≡ true
unfolding every
every-run_id n m [] h e = refl
every-run_id n m (r ∷ rs) h e = ground (arith, every-run_id n m rs h)

rows-older :
    (id run_id m : ℕ) (results : List ReconciliationResult)
    → run_id < m
    → every (older_run m) (reconciliation_rows id run_id results) ≡ true
unfolding every reconciliation_rows
rows-older id run_id m [] h = refl
rows-older id run_id m (r ∷ rs) h = ground (arith, rows-older (suc id) run_id m rs h)

-- Adding a run whose results have distinct numbers keeps the constraints.
pub add_run-IsAnalyticsSound :
    (run : AnalyticsRun) (results : List ReconciliationResult) (db : AnalyticsDb)
    → run.id ≡ db.next_id
    → run_checks run ≡ true
    → unique same_number results ≡ true
    → IsAnalyticsSound db
    → IsAnalyticsSound (add_reconciliation_run run results db)
unfolding analytics_constraints_hold every
add_run-IsAnalyticsSound run results db own checks numbers s =
    let rows = reconciliation_rows (suc db.next_id) db.next_id results in
    record {
      holds = ground (
        arith,
        s.holds,
        every-append run_checks db.runs (run ∷ []),
        unique-together same_reconciliation (older_run db.next_id) db.reconciliations rows
            (rows-apart (suc db.next_id) db.next_id results) s.older_rows (ground (arith, s.holds))
            (rows-unique (suc db.next_id) db.next_id results numbers),
      );
      older_rows = ground (
        arith,
        every-append (older_run (suc db.next_id + length results)) db.reconciliations rows,
        every-weaken_id db.next_id (suc db.next_id + length results) db.reconciliations
            (omega arith) s.older_rows,
        rows-older (suc db.next_id) db.next_id (suc db.next_id + length results) results
            (omega arith),
      );
      older_runs = ground (
        arith,
        every-append (λ r. ltb r.id (suc db.next_id + length results)) db.runs (run ∷ []),
        every-run_id db.next_id (suc db.next_id + length results) db.runs (omega arith)
            s.older_runs,
      );
    }
