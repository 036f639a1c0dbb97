-- ===== src/Store.antt =====
-- src/supply_chain_hub/infrastructure/db: the rows of the tables, the constraints that the
-- database checks, and transactions.
pub mod Rows
pub mod Db
pub mod Constraints
pub mod Session
