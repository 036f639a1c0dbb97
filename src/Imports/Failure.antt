-- ===== src/Imports/Failure.antt =====
-- What a failed execution does to its job: which failures are retried and when, and the record of
-- the failure (integration_services.py).
pub mod Policy
pub mod Record
pub mod Backoff
