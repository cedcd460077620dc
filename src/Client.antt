-- ===== src/Client.antt =====
-- The page of frontend/src/client.
pub mod Presence
pub mod Voice
pub mod Recovery
pub mod Invite
pub mod Channel
pub mod Messages
pub mod Leaving
pub mod Errors
pub mod Derivation
pub mod Admission
pub mod Events
