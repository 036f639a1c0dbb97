-- ===== src/Domain.antt =====
-- src/supply_chain_hub/domain: the enumerations, the exceptions, and the business rules that do
-- not touch the database.
pub mod Enums
pub mod Errors
pub mod Decimal
pub mod Inventory
pub mod Shipments
