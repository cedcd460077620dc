-- ===== src/Crypto.antt =====
-- frontend/src/client/crypto.ts, and frontend/src/shared/media-key.ts.
pub mod Bytes
pub mod Base64
pub mod Hex
pub mod Platform
pub mod Chat
pub mod Field
pub mod Curve
pub mod Spake2
pub mod Scrypt
