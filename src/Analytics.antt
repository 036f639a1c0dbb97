-- ===== src/Analytics.antt =====
-- analytics/ and application/analytics_services.py: the comparison of reported with recorded
-- quantities by two data frame libraries, and the risk of running out of stock.
pub mod Types
pub mod Words
pub mod Floats
pub mod Risk
pub mod Severity
pub mod Frames
pub mod Reconciliation
pub mod Synthetic
pub mod Tables
pub mod Services
pub mod RiskRuns
pub mod Runs
pub mod Stored
pub mod Benchmark
pub mod Agreement
pub mod Paging
pub mod Ordering
pub mod Sorting
pub mod Engines
pub mod Generated
use supply_chain_integration.Base.{ℕ}
