-- ===== src/Admin.antt =====
-- The administration page, frontend/src/admin.
pub mod Listening
pub mod Session
pub mod Duration
