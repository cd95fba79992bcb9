-- ===== src/Service.antt =====
-- service.py: the rules of the board. Each child is one section of that file.
pub mod Denials
pub mod Lookups
pub mod Ownership
pub mod Registration
pub mod Gates
pub mod Conversations
pub mod Membership
pub mod Messages
pub mod Reads
pub mod Listings
pub mod Inbox
pub mod Serialization
pub mod Requests
