-- ===== src/Services/Orders.antt =====
-- services.py: purchase orders.
use supply_chain_integration.Base.{
  ℕ, suc, String, Option, Bool, true, not, ◌&&◌, List, [], ◌∷◌, ◌++◌, ◌==◌, find, any, every, map,
}
use supply_chain_integration.Domain.Enums.{PurchaseOrderStatus}
use supply_chain_integration.Domain.Errors.{resource_not_found, resource_conflict}
use supply_chain_integration.Domain.Decimal.{Decimal, zero_quantity}
use supply_chain_integration.Store.Rows.{Uuid}
use supply_chain_integration.Store.Rows.Catalog.{Product}
use supply_chain_integration.Store.Rows.Trade.{PurchaseOrderLine, PurchaseOrder}
use supply_chain_integration.Store.Session.{
  Tx, pure, gets, modify, or_raise, raise_if, fresh_id, commit_or_conflict, ◌>>=◌, ◌>>◌,
}
use supply_chain_integration.Services.Catalog.{get_supplier}

-- PurchaseOrderLineCreate and PurchaseOrderCreate of api/schemas.py.
pub record PurchaseOrderLineCreate : Type 0 where
  pub product_id : Uuid
  pub ordered_quantity : Decimal

pub record PurchaseOrderCreate : Type 0 where
  pub supplier_id : Uuid
  pub external_reference : String
  pub expected_date : Option ℕ
  pub lines : List PurchaseOrderLineCreate

-- `len(ids) == len(set(ids))`
unfoldable pub all_distinct : List Uuid → Bool
unfolding any
all_distinct [] = true
all_distinct (n ∷ ns) = not (any (λ m. m == n) ns) && all_distinct ns

-- `not (set(product_ids) - found_product_ids)`
abbrev pub all_known : List Product → List PurchaseOrderLineCreate → Bool
all_known products lines = every (λ l. any (λ p. p.id == l.product_id) products) lines

-- `enumerate(request.lines, start=1)`; every line draws an id.
unfoldable pub order_lines : ℕ → List PurchaseOrderLineCreate → Tx (List PurchaseOrderLine)
order_lines line_number [] = pure []
order_lines line_number (l ∷ ls) = do
  id ← fresh_id
  rest ← order_lines (suc line_number) ls
  pure (
      record {
        id = id;
        line_number = line_number;
        product_id = l.product_id;
        ordered_quantity = l.ordered_quantity;
        received_quantity = zero_quantity;
      }
      ∷ rest)

unfoldable pub get_purchase_order : Uuid → Tx PurchaseOrder
get_purchase_order id db = or_raise (find (λ o. o.id == id) db.orders) resource_not_found db

abbrev pub new_order : Uuid → PurchaseOrderCreate → ℕ → List PurchaseOrderLine → PurchaseOrder
new_order id request today lines = record {
  id = id;
  supplier_id = request.supplier_id;
  external_reference = request.external_reference;
  status = PurchaseOrderStatus.submitted;
  order_date = today;
  expected_date = request.expected_date;
  lines = lines;
}

-- `today` is the date of the database.
unfoldable pub create_purchase_order : PurchaseOrderCreate → ℕ → Tx PurchaseOrder
unfolding get_supplier all_distinct order_lines get_purchase_order
create_purchase_order request today = do
  get_supplier request.supplier_id
  raise_if (not (all_distinct (map (λ l. l.product_id) request.lines))) resource_conflict
  products ← gets (λ db. db.products)
  raise_if (not (all_known products request.lines)) resource_not_found
  id ← fresh_id
  lines ← order_lines 1 request.lines
  modify (λ db. record db { orders = db.orders ++ new_order id request today lines ∷ [] })
  commit_or_conflict
  get_purchase_order id
