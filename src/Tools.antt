-- ===== src/Tools.antt =====
-- providers/comms.py: the tools. Each checks the caller, opens a session, and calls the service once.
pub mod Caller
pub mod Errors
pub mod Parsing
pub mod Board
pub mod Conversations
pub mod Membership
