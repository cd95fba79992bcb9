-- ===== src/Tests.antt =====
-- Runs of the model on small tables, and the properties at them.
pub mod Board
pub mod Calls
pub mod Runs
pub mod Rules
mod Tokens
mod Server
pub mod Payloads
