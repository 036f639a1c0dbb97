-- ===== src/Services/Laws/Lines.antt =====
-- The lines of a purchase order.
use supply_chain_integration.Base.{
  ℕ, suc, ◌+◌, ◌≡◌, true, some, none, List, [], ◌∷◌, ◌==◌, find, find-append, map, length, arith,
}
use supply_chain_integration.Domain.Decimal.{zero_quantity}
use supply_chain_integration.Domain.Errors.{ok}
use supply_chain_integration.Store.Rows.{Uuid}
use supply_chain_integration.Store.Rows.Trade.{PurchaseOrder, PurchaseOrderLine}
use supply_chain_integration.Store.Db.{Db}
use supply_chain_integration.Store.Session.{commit_or_conflict}
use supply_chain_integration.Store.Constraints.{IsConsistent, constraints_hold-IsConsistent}
use supply_chain_integration.Services.Catalog.{get_supplier}
use supply_chain_integration.Services.Orders.{
  PurchaseOrderLineCreate, PurchaseOrderCreate, all_distinct, all_known, order_lines, new_order,
  get_purchase_order, create_purchase_order,
}

-- The lines that a request asks for, numbered and with consecutive ids.
pub lines_from : Uuid → ℕ → List PurchaseOrderLineCreate → List PurchaseOrderLine
lines_from id line_number [] = []
lines_from id line_number (l ∷ ls) =
    record {
      id = id;
      line_number = line_number;
      product_id = l.product_id;
      ordered_quantity = l.ordered_quantity;
      received_quantity = zero_quantity;
    }
    ∷ lines_from (suc id) (suc line_number) ls

order_lines_lem :
    (n : ℕ) (ls : List PurchaseOrderLineCreate) (db : Db)
    → order_lines n ls db
      ≡ ok (lines_from db.next_id n ls, record db { next_id = db.next_id + length ls })
unfolding order_lines lines_from
order_lines_lem n [] db = ground arith
order_lines_lem n (l ∷ ls) db =
    ground (arith, order_lines_lem (suc n) ls (record db { next_id = suc db.next_id }))

-- When a purchase order is created and its id was not in use, its lines are those of the request, in
-- order and numbered from 1, no product was asked for twice, every product was known, the order is
-- the one in the database, and the database is consistent.
pub create_purchase_order_lem :
    (request : PurchaseOrderCreate) (today : ℕ) (db db' : Db) (order : PurchaseOrder)
    → find (λ o. o.id == db.next_id) db.orders ≡ none
    → create_purchase_order request today db ≡ ok (order, db')
    → (order.lines ≡ lines_from (suc db.next_id) 1 request.lines)
      × (order.supplier_id ≡ request.supplier_id)
      × (all_distinct (map (λ l. l.product_id) request.lines) ≡ true)
      × (all_known db.products request.lines ≡ true)
      × (find (λ o. o.id == db.next_id) db'.orders ≡ some order)
      × IsConsistent db'
unfolding create_purchase_order get_supplier get_purchase_order commit_or_conflict find
create_purchase_order_lem request today db db' order fresh h =
    let lines = order_lines_lem 1 request.lines (record db { next_id = suc db.next_id }) in
    let new = new_order db.next_id request today (lines_from (suc db.next_id) 1 request.lines) in
    let there = find-append (λ o. o.id == db.next_id) db.orders (new ∷ []) in
    (
      ground arith,
      ground arith,
      ground arith,
      ground arith,
      ground arith,
      constraints_hold-IsConsistent db' (ground arith),
    )
