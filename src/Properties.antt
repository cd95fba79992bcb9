-- ===== src/Properties.antt =====
-- What the board promises: of every sequence of requests, of each call of service.py, and of the
-- rules that the calls apply.
pub mod Runs
pub mod Calls
pub mod Rules
pub mod Access
pub mod Server
pub mod Listings
pub mod Payloads
