-- ===== src/Learning.antt =====
-- The learning console: api/routes/learning.py, and the reads of application/learning_services.py.
pub mod Events
pub mod Stream
pub mod Rounds
pub mod Unseen
pub mod Delivery
