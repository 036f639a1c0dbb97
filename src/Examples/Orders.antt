-- ===== src/Examples/Orders.antt =====
-- The theorem on purchase orders, at an order of one line.
use supply_chain_integration.Base.{
  ◌≡◌, refl, some, none, [], ◌∷◌, ◌==◌, true, map, find, any, every, unique,
}
use supply_chain_integration.Domain.Decimal.{thousandths}
use supply_chain_integration.Domain.Enums.{RecordStatus, UnitOfMeasure}
use supply_chain_integration.Domain.Errors.{Result, ok, err}
use supply_chain_integration.Store.Rows.Catalog.{Product}
use supply_chain_integration.Store.Rows.Trade.{PurchaseOrder}
use supply_chain_integration.Store.Db.{Db}
use supply_chain_integration.Store.Session.{commit_or_conflict}
use supply_chain_integration.Store.Constraints.{IsConsistent, constraints_hold}
use supply_chain_integration.Services.Catalog.{get_supplier}
use supply_chain_integration.Services.Orders.{
  PurchaseOrderCreate, all_distinct, all_known, order_lines, new_order, get_purchase_order,
  create_purchase_order,
}
use supply_chain_integration.Services.Laws.Lines.{lines_from, create_purchase_order_lem}
use supply_chain_integration.Examples.{one_supplier}

abbrev bolt : Product
bolt = record {
  id = 4;
  sku = "BOLT";
  name = "Bolt";
  base_unit = UnitOfMeasure.each;
  status = RecordStatus.active;
}

abbrev stocked_db : Db
stocked_db = record one_supplier { next_id = 30; products = bolt ∷ [] }

abbrev request : PurchaseOrderCreate
request = record {
  supplier_id = 0;
  external_reference = "PO-1";
  expected_date = none;
  lines = record { product_id = 4; ordered_quantity = thousandths 2000 } ∷ [];
}

abbrev created : Result (PurchaseOrder × Db)
created = create_purchase_order request 700 stocked_db

abbrev end_of : Result (PurchaseOrder × Db) → Db
end_of (ok (order, db)) = db
end_of (err e) = one_supplier

abbrev order_of : Result (PurchaseOrder × Db) → PurchaseOrder
order_of (ok (order, db)) = order
order_of (err e) = new_order 0 request 0 []

create_purchase_order_lem_example :
    ((order_of created).lines ≡ lines_from 31 1 request.lines)
    × ((order_of created).supplier_id ≡ 0)
    × (all_distinct (map (λ l. l.product_id) request.lines) ≡ true)
    × (all_known stocked_db.products request.lines ≡ true)
    × (find (λ o. o.id == 30) (end_of created).orders ≡ some (order_of created))
    × IsConsistent (end_of created)
unfolding create_purchase_order get_supplier get_purchase_order order_lines all_distinct find
    commit_or_conflict constraints_hold unique any every
create_purchase_order_lem_example =
    create_purchase_order_lem request 700 stocked_db (end_of created) (order_of created) refl refl
