-- ===== src/Worker.antt =====
-- worker/: the tasks that Celery runs around the import services, and the broker that they publish
-- to.
pub mod Broker
pub mod Tasks
pub mod Lifecycle
pub mod Handling
pub mod Refinement
pub mod Retries
pub mod Messages
pub mod Publication
