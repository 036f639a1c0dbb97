-- ===== src/Services/Catalog.antt =====
-- services.py: suppliers, products and warehouses. The texts were normalised by the request schema.
use supply_chain_integration.Base.{String, [], ◌∷◌, ◌++◌, ◌==◌, find}
use supply_chain_integration.Domain.Enums.{RecordStatus, UnitOfMeasure}
use supply_chain_integration.Domain.Errors.{resource_not_found}
use supply_chain_integration.Store.Rows.{Uuid}
use supply_chain_integration.Store.Rows.Catalog.{Supplier, Product, Warehouse}
use supply_chain_integration.Store.Session.{
  Tx, pure, modify, or_raise, fresh_id, commit_or_conflict, ◌>>=◌, ◌>>◌,
}

-- SupplierCreate, ProductCreate and WarehouseCreate of api/schemas.py.
pub record SupplierCreate : Type 0 where
  pub code : String
  pub name : String

pub record ProductCreate : Type 0 where
  pub sku : String
  pub name : String
  pub base_unit : UnitOfMeasure

pub record WarehouseCreate : Type 0 where
  pub code : String
  pub name : String
  pub timezone : String

abbrev pub new_supplier : Uuid → SupplierCreate → Supplier
new_supplier id request = record {
  id = id;
  code = request.code;
  name = request.name;
  status = RecordStatus.active;
}

unfoldable pub create_supplier : SupplierCreate → Tx Supplier
create_supplier request = do
  id ← fresh_id
  modify (λ db. record db { suppliers = db.suppliers ++ new_supplier id request ∷ [] })
  commit_or_conflict
  pure (new_supplier id request)

unfoldable pub get_supplier : Uuid → Tx Supplier
get_supplier id db = or_raise (find (λ s. s.id == id) db.suppliers) resource_not_found db

abbrev pub new_product : Uuid → ProductCreate → Product
new_product id request = record {
  id = id;
  sku = request.sku;
  name = request.name;
  base_unit = request.base_unit;
  status = RecordStatus.active;
}

unfoldable pub create_product : ProductCreate → Tx Product
create_product request = do
  id ← fresh_id
  modify (λ db. record db { products = db.products ++ new_product id request ∷ [] })
  commit_or_conflict
  pure (new_product id request)

unfoldable pub get_product : Uuid → Tx Product
get_product id db = or_raise (find (λ p. p.id == id) db.products) resource_not_found db

abbrev pub new_warehouse : Uuid → WarehouseCreate → Warehouse
new_warehouse id request = record {
  id = id;
  code = request.code;
  name = request.name;
  timezone = request.timezone;
  status = RecordStatus.active;
}

unfoldable pub create_warehouse : WarehouseCreate → Tx Warehouse
create_warehouse request = do
  id ← fresh_id
  modify (λ db. record db { warehouses = db.warehouses ++ new_warehouse id request ∷ [] })
  commit_or_conflict
  pure (new_warehouse id request)

unfoldable pub get_warehouse : Uuid → Tx Warehouse
get_warehouse id db = or_raise (find (λ w. w.id == id) db.warehouses) resource_not_found db
