-- ===== src/Services.antt =====
-- application/services.py and the mapping services of application/integration_services.py: the
-- reference data, the inventory, purchase orders and shipments.
pub mod Catalog
pub mod Inventory
pub mod Mappings
pub mod Orders
pub mod Shipments
pub mod Lists
pub mod Laws
