-- ===== src/Partners.antt =====
-- src/supply_chain_hub/integrations: the canonical records and the adapters of the partners.
pub mod Canonical
pub mod SupplierA
pub mod SupplierB
pub mod CarrierC
pub mod Coverage
