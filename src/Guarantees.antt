-- ===== src/Guarantees.antt =====
-- What each part of the program guarantees: the functions of service.py by how they end, the tools
-- and the middlewares by what they do to the tables, the tokens by what they let pass.
pub mod Denials
pub mod Loading
pub mod Membership
pub mod Boundary
pub mod Gates
pub mod Closing
pub mod Messages
pub mod Conversations
pub mod Invite
pub mod Registration
pub mod Reads
pub mod Runs
pub mod Returns
pub mod Keys
pub mod Identity
pub mod Scopes
pub mod Listings
pub mod Dispatch
pub mod Strangers
pub mod Directory
pub mod Pages
pub mod Inbox
pub mod Rotation
pub mod Claims
pub mod Payloads
pub mod Limits
pub mod Expiry
pub mod Shown
