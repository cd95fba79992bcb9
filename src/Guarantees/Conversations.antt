-- ===== src/Guarantees/Conversations.antt =====
-- start_conversation: who may be brought together, and what is written.
pub mod Targets
pub mod Admission
pub mod Opening
pub mod Start
