-- ===== src/Crypto/Spake2.antt =====
-- `randomScalar`, `hmac`, `dawnHkdf` and the class `Spake2` of frontend/src/client/crypto.ts.
pub mod Transcript
pub mod Session
mod Tests
use Prim.Native.Char.{code}
use dawn_mesh_server.Prelude.{
  ℕ, zero, suc, ◌+◌, Bool, true, false, ◌&&◌, List, [], ◌∷◌, ◌++◌, Option, none, some, String,
  length, take, drop, replicate, ltb, if◌then◌else◌, Result, ok, err, Failure, failure, ◌>>=◌,
}
use dawn_mesh_server.Prelude.Int.{pos}
use dawn_mesh_server.Crypto.Bytes.{Bytes, bigint_from_bytes, bigint_bytes, uint64_le, concat}
use dawn_mesh_server.Crypto.Base64.{Text}
use dawn_mesh_server.Crypto.Platform.{Subtle}
use dawn_mesh_server.Crypto.Field.{curve_order, mod_by}
use dawn_mesh_server.Crypto.Curve.{
  Point, base_point, point_add, point_multiply, point_negate, decode_point, encode_point,
  decode_compressed,
}

-- The UTF-8 bytes of an ASCII text.
abbrev pub ascii : String → Bytes
ascii String.[] = []
ascii (String.◌∷◌ c s) = code c ∷ ascii s

-- The masks `M` and `MASK_N`.
pub mask_m : Point
mask_m =
    decode_compressed (ascii "02886e2f97ace46e55ba9dd7242579f2993b64e16ef3dcab95afd497333d8fa12f")

pub mask_n : Point
mask_n =
    decode_compressed (ascii "03d8bbd6c639c62937b04d997f38c3770719c629d7014d49a24b4f98baa1292b49")

-- `randomScalar` over the draws of `getRandomValues`; `none` if they run out.
unfoldable pub random_scalar : List Bytes → Option ℕ
random_scalar [] = none
random_scalar (bytes ∷ draws) =
    let value = bigint_from_bytes bytes in
    if ltb 0 value && ltb value curve_order then some value else random_scalar draws

module _ (subtle : Subtle) where
  unfoldable pub dawn_hkdf : Bytes → Bytes → Bytes
  dawn_hkdf key info =
      let prk = subtle.sign (replicate 32 0) key in subtle.sign prk (concat (info ∷ (1 ∷ []) ∷ []))

pub record Spake2 : Type 0 where
  pub is_a : Bool
  pub password_scalar : ℕ
  pub secret : ℕ
  pub used : Bool
  pub point : Option Point
  pub message : Bytes

pub record PakeKeys : Type 0 where
  pub transcript : Bytes
  pub shared_key : Bytes
  pub confirm_a : Bytes
  pub confirm_b : Bytes

-- `constructor`, with the secret that `testSecret ?? randomScalar()` gives.
unfoldable pub new_spake2 : Bool → ℕ → ℕ → Result Spake2
new_spake2 is_a password_scalar secret =
    let scalar = mod_by (pos password_scalar) curve_order in
    let mask = if is_a then mask_m else mask_n in
    point_multiply secret (some base_point) >>= λ public.
    point_multiply scalar (some mask) >>= λ masked. point_add public masked >>= λ point.
    encode_point point >>= λ message. ok (record {
      is_a = is_a;
      password_scalar = scalar;
      secret = secret;
      used = false;
      point = point;
      message = message;
    })

-- `fields.flatMap((field) => [uint64LE(field.length), field])`.
unfoldable pub framed : List Bytes → List Bytes
framed [] = []
framed (field ∷ fields) = uint64_le (length field) ∷ field ∷ framed fields

unfoldable pub transcript_of : List Bytes → Bytes
transcript_of fields = concat (framed fields)

or_invalid : Option Point → Result Point
or_invalid none = err (failure "invalid PAKE secret")
or_invalid (some shared) = ok shared

-- The peer's point without its mask, times the secret.
unfoldable pub shared_point : Spake2 → Bytes → Result Point
unfolding or_invalid
shared_point s peer_bytes = do
  peer ← decode_point peer_bytes
  masked ← point_multiply s.password_scalar (some (if s.is_a then mask_n else mask_m))
  unmasked ← point_add (some peer) (point_negate masked)
  shared ← point_multiply s.secret unmasked
  or_invalid shared

unfoldable pub transcript_fields : Spake2 → Bytes → Bytes → Bytes → Bytes → Bytes → List Bytes
transcript_fields s peer_bytes identity_a identity_b shared scalar =
    identity_a
    ∷ identity_b
    ∷ (if s.is_a then s.message else peer_bytes)
    ∷ (if s.is_a then peer_bytes else s.message)
    ∷ shared
    ∷ scalar
    ∷ []

module _ (subtle : Subtle) where
  unfoldable pub keys_of : Bytes → PakeKeys
  keys_of transcript =
      let digest = subtle.digest transcript in
      let confirmation_keys = dawn_hkdf subtle (drop 16 digest) (ascii "ConfirmationKeys") in
      record {
        transcript = transcript;
        shared_key = take 16 digest;
        confirm_a = subtle.sign (take 16 confirmation_keys) transcript;
        confirm_b = subtle.sign (drop 16 confirmation_keys) transcript;
      }

  unfoldable pub derive_keys : Spake2 → Bytes → Bytes → Bytes → Result PakeKeys
  derive_keys s peer_bytes identity_a identity_b = do
    shared ← shared_point s peer_bytes
    shared_bytes ← encode_point (some shared)
    scalar_bytes ← bigint_bytes s.password_scalar 32
    ok (
        keys_of (
          transcript_of
            (transcript_fields s peer_bytes identity_a identity_b shared_bytes scalar_bytes)))

  -- `used` is set before anything can throw.
  unfoldable pub finish : Spake2 → Bytes → Bytes → Bytes → Spake2 × Result PakeKeys
  finish s peer_bytes identity_a identity_b =
      if s.used
      then (s, err (failure "PAKE ephemeral must not be reused"))
      else (record s { used = true }, derive_keys s peer_bytes identity_a identity_b)
