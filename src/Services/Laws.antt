-- ===== src/Services/Laws.antt =====
-- What the catalog, the mappings and the inventory services promise their callers.
pub mod Registration
pub mod Revisions
pub mod Events
pub mod Lines
