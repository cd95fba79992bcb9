-- ===== src/Board.antt =====
-- What holds of the tables, whatever the service does: how rows may change, and what every state
-- satisfies.
pub mod Steps
pub mod Integrity
pub mod Known
pub mod Writes
