-- ===== src/Guarantees/Messages.antt =====
-- post_message: what a posted message satisfies, and what it does to the conversation.
pub mod Effects
pub mod Append
pub mod Post
