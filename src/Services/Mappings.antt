-- ===== src/Services/Mappings.antt =====
-- integration_services.py: `upsert_product_mapping` and `upsert_warehouse_mapping`.
use supply_chain_integration.Base.{
  same_bool, suc, String, Option, none, some, Bool, not, ◌&&◌, ◌||◌, [], ◌∷◌, ◌++◌, ◌==◌, str_eq,
  find, update, if◌then◌else◌,
}
use supply_chain_integration.Base.Int.{eq_ℤ}
use supply_chain_integration.Domain.Enums.{UnitOfMeasure, same_unit}
use supply_chain_integration.Domain.Decimal.{Decimal}
use supply_chain_integration.Store.Rows.{Uuid}
use supply_chain_integration.Store.Rows.Catalog.{SupplierProductMapping, SupplierWarehouseMapping}
use supply_chain_integration.Store.Session.{
  Tx, pure, gets, modify, fresh_id, commit_or_conflict, ◌>>=◌, ◌>>◌,
}
use supply_chain_integration.Services.Catalog.{get_supplier, get_product, get_warehouse}

-- ProductMappingUpsert and WarehouseMappingUpsert of api/schemas.py.
pub record ProductMappingUpsert : Type 0 where
  pub supplier_id : Uuid
  pub external_sku : String
  pub product_id : Uuid
  pub source_unit : UnitOfMeasure
  pub units_per_source_unit : Decimal
  pub active : Bool

pub record WarehouseMappingUpsert : Type 0 where
  pub supplier_id : Uuid
  pub external_location : String
  pub warehouse_id : Uuid
  pub active : Bool

abbrev pub is_sku_mapping : ProductMappingUpsert → SupplierProductMapping → Bool
is_sku_mapping request m =
    m.supplier_id == request.supplier_id && str_eq m.external_sku request.external_sku

abbrev pub new_product_mapping : Uuid → ProductMappingUpsert → SupplierProductMapping
new_product_mapping id request = record {
  id = id;
  supplier_id = request.supplier_id;
  external_sku = request.external_sku;
  product_id = request.product_id;
  source_unit = request.source_unit;
  units_per_source_unit = request.units_per_source_unit;
  version = 1;
  active = request.active;
}

-- `changed`
abbrev pub product_mapping_changed : ProductMappingUpsert → SupplierProductMapping → Bool
product_mapping_changed request m =
    not (m.product_id == request.product_id)
    || not (same_unit m.source_unit request.source_unit)
    || not (eq_ℤ m.units_per_source_unit request.units_per_source_unit)
    || not (same_bool m.active request.active)

unfoldable pub revise_product_mapping :
    ProductMappingUpsert → SupplierProductMapping → SupplierProductMapping
revise_product_mapping request m =
    if product_mapping_changed request m
    then record m {
      product_id = request.product_id;
      source_unit = request.source_unit;
      units_per_source_unit = request.units_per_source_unit;
      active = request.active;
      version = suc m.version;
    }
    else m

pub write_product_mapping :
    ProductMappingUpsert → Option SupplierProductMapping → Tx SupplierProductMapping
unfolding revise_product_mapping
write_product_mapping request none = do
  id ← fresh_id
  let mapping = new_product_mapping id request
  modify (λ db. record db { product_mappings = db.product_mappings ++ mapping ∷ [] })
  pure mapping
write_product_mapping request (some mapping) = do
  modify (λ db. record db {
    product_mappings =
        update (is_sku_mapping request) (revise_product_mapping request) db.product_mappings;
  })
  pure (revise_product_mapping request mapping)

unfoldable pub upsert_product_mapping : ProductMappingUpsert → Tx SupplierProductMapping
unfolding get_supplier get_product write_product_mapping
upsert_product_mapping request = do
  get_supplier request.supplier_id
  get_product request.product_id
  found ← gets (λ db. find (is_sku_mapping request) db.product_mappings)
  mapping ← write_product_mapping request found
  commit_or_conflict
  pure mapping

abbrev pub is_location_mapping : WarehouseMappingUpsert → SupplierWarehouseMapping → Bool
is_location_mapping request m =
    m.supplier_id == request.supplier_id && str_eq m.external_location request.external_location

abbrev pub new_warehouse_mapping : Uuid → WarehouseMappingUpsert → SupplierWarehouseMapping
new_warehouse_mapping id request = record {
  id = id;
  supplier_id = request.supplier_id;
  external_location = request.external_location;
  warehouse_id = request.warehouse_id;
  version = 1;
  active = request.active;
}

unfoldable pub revise_warehouse_mapping :
    WarehouseMappingUpsert → SupplierWarehouseMapping → SupplierWarehouseMapping
revise_warehouse_mapping request m =
    if not (m.warehouse_id == request.warehouse_id) || not (same_bool m.active request.active)
    then record m {
      warehouse_id = request.warehouse_id;
      active = request.active;
      version = suc m.version;
    }
    else m

pub write_warehouse_mapping :
    WarehouseMappingUpsert → Option SupplierWarehouseMapping → Tx SupplierWarehouseMapping
unfolding revise_warehouse_mapping
write_warehouse_mapping request none = do
  id ← fresh_id
  let mapping = new_warehouse_mapping id request
  modify (λ db. record db { warehouse_mappings = db.warehouse_mappings ++ mapping ∷ [] })
  pure mapping
write_warehouse_mapping request (some mapping) = do
  modify (λ db. record db {
    warehouse_mappings =
        update (is_location_mapping request) (revise_warehouse_mapping request)
          db.warehouse_mappings;
  })
  pure (revise_warehouse_mapping request mapping)

unfoldable pub upsert_warehouse_mapping : WarehouseMappingUpsert → Tx SupplierWarehouseMapping
unfolding get_supplier get_warehouse write_warehouse_mapping
upsert_warehouse_mapping request = do
  get_supplier request.supplier_id
  get_warehouse request.warehouse_id
  found ← gets (λ db. find (is_location_mapping request) db.warehouse_mappings)
  mapping ← write_warehouse_mapping request found
  commit_or_conflict
  pure mapping
