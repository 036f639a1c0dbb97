-- ===== src/Api.antt =====
-- The HTTP interface of the imports: api/ and the exception handlers of main.py.
pub mod Errors
pub mod Headers
pub mod Imports
pub mod Answers
pub mod Publication
pub mod Guards
pub mod Routes
pub mod Replays
