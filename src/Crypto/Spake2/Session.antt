-- ===== src/Crypto/Spake2/Session.antt =====
-- The session of `Spake2`: one use, and one result on both sides.
use dawn_mesh_server.Prelude.{
  ℕ, ◌<◌, ◌≡◌, arith, true, false, ◌&&◌, List, [], ◌∷◌, some, length, length-take, ltb, err,
  failure, Bool-cases, inl, inr, &&-true, ltb→lt,
}
use dawn_mesh_server.Crypto.Bytes.{Bytes, bigint_from_bytes}
use dawn_mesh_server.Crypto.Platform.{Subtle, IsStandard}
use dawn_mesh_server.Crypto.Field.{curve_order}
use dawn_mesh_server.Crypto.Spake2.{
  Spake2, random_scalar, shared_point, transcript_fields, keys_of, derive_keys, finish,
}

-- A scalar that is returned is positive and less than the order of the group.
pub random_scalar_range :
    (draws : List Bytes) (value : ℕ)
    → random_scalar draws ≡ some value
    → (0 < value) × (value < curve_order)
unfolding random_scalar
random_scalar_range [] value h = cc
random_scalar_range (bytes ∷ draws) value h =
    let drawn = bigint_from_bytes bytes in
    elim (Bool-cases (ltb 0 drawn && ltb drawn curve_order)) [
      | inl fits ↦
          let parts = &&-true (ltb 0 drawn) (ltb drawn curve_order) fits in
          let same : drawn ≡ value = ground arith in
          (rw (← same) (ltb→lt 0 drawn parts.0), rw (← same) (ltb→lt drawn curve_order parts.1))
      | inr other ↦ random_scalar_range draws value (rw other at h)
    ]

module _ (subtle : Subtle) where
  -- After one `finish`, whether it gave keys or an error, every later one is an error and changes
  -- nothing.
  pub finish_once :
      (s : Spake2) (peer identity_a identity_b peer' identity_a' identity_b' : Bytes)
      → let s' = (finish subtle s peer identity_a identity_b).0 in
        finish subtle s' peer' identity_a' identity_b'
        ≡ (s', err (failure "PAKE ephemeral must not be reused"))
  unfolding finish
  finish_once s peer identity_a identity_b peer' identity_a' identity_b' =
      elim (Bool-cases s.used) [ inl old ↦ simp old | inr fresh ↦ rw fresh ]

  -- Two fresh sides with one password scalar that compute the same shared point finish alike: with
  -- the same keys, or with the same error.
  pub finish_agree :
      (a b : Spake2) (identity_a identity_b : Bytes)
      → a.is_a ≡ true
      → b.is_a ≡ false
      → a.used ≡ false
      → b.used ≡ false
      → a.password_scalar ≡ b.password_scalar
      → shared_point a b.message ≡ shared_point b a.message
      → (finish subtle a b.message identity_a identity_b).1
        ≡ (finish subtle b a.message identity_a identity_b).1
  unfolding finish derive_keys transcript_fields
  finish_agree a b identity_a identity_b role_a role_b fresh_a fresh_b password shared =
      simp (fresh_a, fresh_b, shared, role_a, role_b, password)

  -- Of standard primitives the shared key is 16 bytes and each confirmation is 32 bytes.
  pub keys_of_sizes :
      (standard : IsStandard subtle) (transcript : Bytes)
      → (length (keys_of subtle transcript).shared_key ≡ 16)
        × (length (keys_of subtle transcript).confirm_a ≡ 32)
        × (length (keys_of subtle transcript).confirm_b ≡ 32)
  unfolding keys_of
  keys_of_sizes standard transcript = (
    omega (arith, length-take 16 (subtle.digest transcript), standard.length-digest transcript),
    standard.length-sign _ transcript,
    standard.length-sign _ transcript,
  )
