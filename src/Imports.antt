-- ===== src/Imports.antt =====
-- application/integration_services.py, learning_services.py: the durable import of partner
-- inventory, from the submission to the terminal state of its job.
pub mod Jobs
pub mod Queue
pub mod Submission
pub mod Dispatch
pub mod Payload
pub mod Apply
pub mod Totals
pub mod Applied
pub mod Execute
pub mod Runs
pub mod Direct
pub mod Failure
pub mod Recovery
pub mod Replay
pub mod Soundness
pub mod Steps
use supply_chain_integration.Base.{ℕ}
