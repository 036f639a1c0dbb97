-- ===== src/Services/Inventory.antt =====
-- services.py: setting and reading an inventory position.
use supply_chain_integration.Base.{Option, none, some, [], ◌∷◌, ◌++◌, find, update}
use supply_chain_integration.Domain.Errors.{Result}
use supply_chain_integration.Domain.Decimal.{Decimal}
use supply_chain_integration.Domain.Inventory.{calculate_available_quantity}
use supply_chain_integration.Store.Rows.{Uuid}
use supply_chain_integration.Store.Rows.Catalog.{InventoryPosition}
use supply_chain_integration.Store.Session.{
  Tx, pure, lift, gets, modify, fresh_id, commit_or_conflict, ◌>>=◌, ◌>>◌,
}
use supply_chain_integration.Imports.Apply.{is_position, repositioned}
use supply_chain_integration.Services.Catalog.{get_product, get_warehouse}

-- InventorySet of api/schemas.py.
pub record InventorySet : Type 0 where
  pub on_hand_quantity : Decimal
  pub reserved_quantity : Decimal

abbrev pub new_position : Uuid → Uuid → Uuid → InventorySet → InventoryPosition
new_position id warehouse_id product_id request = record {
  id = id;
  warehouse_id = warehouse_id;
  product_id = product_id;
  on_hand_quantity = request.on_hand_quantity;
  reserved_quantity = request.reserved_quantity;
  version = 1;
}

-- A new position, or the new quantities of the one that was found.
unfoldable pub write_position :
    Uuid → Uuid → InventorySet → Option InventoryPosition → Tx InventoryPosition
write_position warehouse_id product_id request none = do
  id ← fresh_id
  let position = new_position id warehouse_id product_id request
  modify (λ db. record db { positions = db.positions ++ position ∷ [] })
  pure position
write_position warehouse_id product_id request (some position) = do
  let change = repositioned request.on_hand_quantity request.reserved_quantity
  modify (λ db. record db {
    positions = update (is_position warehouse_id product_id) change db.positions;
  })
  pure (change position)

unfoldable pub set_inventory : Uuid → Uuid → InventorySet → Tx InventoryPosition
unfolding get_warehouse get_product write_position
set_inventory warehouse_id product_id request = do
  get_warehouse warehouse_id
  get_product product_id
  lift (calculate_available_quantity request.on_hand_quantity request.reserved_quantity)
  found ← gets (λ db. find (is_position warehouse_id product_id) db.positions)
  position ← write_position warehouse_id product_id request found
  commit_or_conflict
  pure position

unfoldable pub available_quantity : InventoryPosition → Result Decimal
available_quantity position =
    calculate_available_quantity position.on_hand_quantity position.reserved_quantity
