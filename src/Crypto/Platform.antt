-- ===== src/Crypto/Platform.antt =====
-- What frontend/src/client/crypto.ts takes from the browser: `crypto.subtle` and `TextEncoder`.
-- These are parameters; `IsStandard` states what their standards say of them.
use dawn_mesh_server.Prelude.{◌+◌, ◌≡◌, Option, some, length}
use dawn_mesh_server.Crypto.Bytes.{Bytes, AreBytes}

pub record Subtle : Type 0 where
  -- `digest("SHA-256", value)`.
  pub digest : Bytes → Bytes
  -- `sign("HMAC", key, value)` with SHA-256.
  pub sign : Bytes → Bytes → Bytes
  -- AES-GCM with a 128-bit tag, on key, nonce, associated data and text; `none` is a rejection.
  pub seal : Bytes → Bytes → Bytes → Bytes → Bytes
  pub unseal : Bytes → Bytes → Bytes → Bytes → Option Bytes

pub record IsStandard (s : Subtle) : Type 0 where
  pub length-digest : (value : Bytes) → length (s.digest value) ≡ 32
  pub digest-AreBytes : (value : Bytes) → AreBytes (s.digest value)
  pub length-sign : (key value : Bytes) → length (s.sign key value) ≡ 32
  pub sign-AreBytes : (key value : Bytes) → AreBytes (s.sign key value)
  pub length-seal :
      (key nonce aad text : Bytes) → length (s.seal key nonce aad text) ≡ length text + 16
  pub seal-AreBytes :
      (key nonce aad text : Bytes) → AreBytes text → AreBytes (s.seal key nonce aad text)
  pub unseal-seal :
      (key nonce aad text : Bytes) → s.unseal key nonce aad (s.seal key nonce aad text) ≡ some text
