-- ===== src/Services/Lists.antt =====
-- The lists of services.py, and list_import_errors and list_import_attempts of
-- integration_services.py. The database's order of texts is a parameter.
use supply_chain_integration.Base.{
  ℕ, ◌+◌, ◌≡◌, sym, String, Bool, true, false, ◌&&◌, Option, none, some, List, [], ◌∷◌, ◌++◌, ◌==◌,
  All, All-take, All-drop, All-sort_by, All-select_test, take, drop, leb, pages-append, sort_by,
  select, Option-cases, inl, inr, if◌then◌else◌, arith,
}
use supply_chain_integration.Domain.Errors.{ok}
use supply_chain_integration.Store.Rows.{Uuid}
use supply_chain_integration.Store.Rows.Catalog.{Supplier, Product, Warehouse, InventoryPosition}
use supply_chain_integration.Store.Rows.Imports.{ImportAttempt, ImportJobError}
use supply_chain_integration.Store.Db.{Db}
use supply_chain_integration.Store.Session.{Tx, gets, ◌>>◌}
use supply_chain_integration.Imports.Jobs.{find_job, get_import_job}

-- `statement.order_by(column).offset(offset).limit(limit)`, the order given by a test of two rows.
module _ {ℓ} {A : Type ℓ} (before : A → A → Bool) where
  unfoldable pub insert_with : A → List A → List A
  insert_with x [] = x ∷ []
  insert_with x (y ∷ ys) =
      let rest = insert_with x ys in if before x y then x ∷ y ∷ ys else y ∷ rest

  unfoldable pub sort_with : List A → List A
  unfolding insert_with
  sort_with [] = []
  sort_with (x ∷ xs) = insert_with x (sort_with xs)

module _ (text_order : String → String → Bool) (offset limit : ℕ) (db : Db) where
  unfoldable pub list_suppliers : List Supplier
  unfolding sort_with
  list_suppliers =
      take limit (drop offset (sort_with (λ a b. text_order a.code b.code) db.suppliers))

  unfoldable pub list_products : List Product
  unfolding sort_with
  list_products = take limit (drop offset (sort_with (λ a b. text_order a.sku b.sku) db.products))

  unfoldable pub list_warehouses : List Warehouse
  unfolding sort_with
  list_warehouses =
      take limit (drop offset (sort_with (λ a b. text_order a.code b.code) db.warehouses))

abbrev is_wanted : Option Uuid → Uuid → Bool
is_wanted none id = true
is_wanted (some wanted) id = id == wanted

abbrev pub wanted_position : Option Uuid → Option Uuid → InventoryPosition → Bool
wanted_position warehouse_id product_id p =
    is_wanted warehouse_id p.warehouse_id && is_wanted product_id p.product_id

-- Ordered by the warehouse, then by the product: the sort is stable.
unfoldable pub list_inventory : Option Uuid → Option Uuid → ℕ → ℕ → Db → List InventoryPosition
unfolding select sort_by
list_inventory warehouse_id product_id offset limit db = take limit (
    drop offset (
      sort_by (λ p. p.warehouse_id)
        (sort_by (λ p. p.product_id)
          (select (wanted_position warehouse_id product_id) db.positions))))

unfoldable pub list_import_attempts : Uuid → Tx (List ImportAttempt)
unfolding get_import_job select sort_by
list_import_attempts id = do
  get_import_job id
  gets (λ db. sort_by (λ a. a.attempt_number) (select (λ a. a.import_job_id == id) db.attempts))

-- PostgreSQL orders a row without a value after those with one.
abbrev row_before : Option ℕ → Option ℕ → Bool
row_before a none = true
row_before none (some b) = false
row_before (some a) (some b) = leb a b

-- Ordered by the source row, then by the instant: the sort is stable.
unfoldable pub list_import_errors : Uuid → Tx (List ImportJobError)
unfolding get_import_job select sort_by sort_with
list_import_errors id = do
  get_import_job id
  gets (λ db.
      sort_with (λ a b. row_before a.source_row b.source_row)
        (sort_by (λ e. e.created_at) (select (λ e. e.import_job_id == id) db.job_errors)))

-- Two pages, one right after the other, are the page of their joint length, and every position of
-- a page is of the warehouse and of the product that were asked for.
pub list_inventory-pages :
    (warehouse_id product_id : Option Uuid) (offset limit more : ℕ) (db : Db)
    → (list_inventory warehouse_id product_id offset limit db
          ++ list_inventory warehouse_id product_id (offset + limit) more db
        ≡ list_inventory warehouse_id product_id offset (limit + more) db)
      × All
          (λ p. wanted_position warehouse_id product_id p ≡ true)
          (list_inventory warehouse_id product_id offset limit db)
unfolding list_inventory
list_inventory-pages warehouse_id product_id offset limit more db =
    let P = λ (p : InventoryPosition). wanted_position warehouse_id product_id p ≡ true in
    (
      pages-append offset limit more _,
      All-take P limit _ (
          All-drop P offset _ (
            All-sort_by P (λ p. p.warehouse_id) _
              (All-sort_by P (λ p. p.product_id) _
                (All-select_test (wanted_position warehouse_id product_id) db.positions)))),
    )

-- The attempts of a job are listed without a change to the database, and all of them are of that job.
pub list_import_attempts_lem :
    (id : Uuid) (db : Db) (attempts : List ImportAttempt) (db' : Db)
    → list_import_attempts id db ≡ ok (attempts, db')
    → (db' ≡ db) × All (λ a. (a.import_job_id == id) ≡ true) attempts
unfolding list_import_attempts get_import_job
list_import_attempts_lem id db attempts db' h = elim (Option-cases (find_job id db)) [
  | inl missing ↦ absurd (ground arith)
  | inr (job, found) ↦
      let P = λ (a : ImportAttempt). (a.import_job_id == id) ≡ true in
      let listed : sort_by (λ (a : ImportAttempt). a.attempt_number)
            (select (λ (a : ImportAttempt). a.import_job_id == id) db.attempts)
          ≡ attempts =
        ground arith in
      (
        ground arith,
        rw (sym listed) (
            All-sort_by P (λ a. a.attempt_number) _
              (All-select_test (λ a. a.import_job_id == id) db.attempts)),
      )
]
