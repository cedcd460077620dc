-- ===== src/Crypto/Scrypt/Output.antt =====
-- The sizes that scrypt of frontend/src/client/crypto.ts gives, and the parameters it refuses.
use dawn_mesh_server.Prelude.{
  ℕ, zero, suc, ◌+◌, ◌-◌, ◌*◌, ◌/◌, ◌<◌, ◌≡◌, refl, ◌∙◌, arith, true, false, [], ◌∷◌, length,
  get_or, set, take, drop, replicate, min, length-take, length-drop, length-replicate, All-take,
  All-replicate, All-set, ok,
}
use dawn_mesh_server.Prelude.Bits.{bit_and-le}
use dawn_mesh_server.Crypto.Bytes.{Bytes, IsByte, AreBytes, set_from, concat}
use dawn_mesh_server.Crypto.Bytes.Joining.{length-set_from}
use dawn_mesh_server.Crypto.Base64.{Text, base64, from_base64}
use dawn_mesh_server.Crypto.Base64.RoundTrip.{from_base64-base64}
use dawn_mesh_server.Crypto.Platform.{Subtle, IsStandard}
use dawn_mesh_server.Crypto.Chat.{set_uint32}
use dawn_mesh_server.Crypto.Spake2.{ascii}
use dawn_mesh_server.Crypto.Scrypt.{
  Words, Credentials, pbkdf2_blocks, pbkdf2_one_iteration, are_unsupported, fill_memory,
  read_memory, bytes_to_little_words, little_words_to_bytes, selected_block, scrypt, is_code,
  internet_invite_credentials,
}

All-set_from :
    (output : Bytes) (offset : ℕ) (values : Bytes)
    → AreBytes output
    → AreBytes values
    → AreBytes (set_from output offset values)
unfolding set_from
All-set_from output offset [] ho hv = ho
All-set_from output offset (v ∷ values) ho hv =
    All-set_from (set output offset v) (offset + 1) values (All-set IsByte output offset v ho hv.0)
      hv.1

module _ (subtle : Subtle) where
  length-pbkdf2_blocks :
      (left block : ℕ) (password salt : Bytes) (size : ℕ) (output : Bytes)
      → length (pbkdf2_blocks subtle left block password salt size output) ≡ length output
  unfolding pbkdf2_blocks
  length-pbkdf2_blocks zero block password salt size output = refl
  length-pbkdf2_blocks (suc left) block password salt size output =
      let digest = subtle.sign password (concat (salt ∷ set_uint32 (replicate 4 0) 0 block ∷ [])) in
      let part = take (min 32 (size - (block - 1) * 32)) digest in
      length-pbkdf2_blocks left (block + 1) password salt size
        (set_from output ((block - 1) * 32) part)
      ∙ length-set_from output ((block - 1) * 32) part

  pbkdf2_blocks-AreBytes :
      (standard : IsStandard subtle) (left block : ℕ) (password salt : Bytes) (size : ℕ)
      (output : Bytes)
      → AreBytes output
      → AreBytes (pbkdf2_blocks subtle left block password salt size output)
  unfolding pbkdf2_blocks
  pbkdf2_blocks-AreBytes standard zero block password salt size output h = h
  pbkdf2_blocks-AreBytes standard (suc left) block password salt size output h =
      let value = concat (salt ∷ set_uint32 (replicate 4 0) 0 block ∷ []) in
      let digest = subtle.sign password value in
      let n = min 32 (size - (block - 1) * 32) in
      pbkdf2_blocks-AreBytes standard left (block + 1) password salt size
        (set_from output ((block - 1) * 32) (take n digest))
        (All-set_from output ((block - 1) * 32) (take n digest) h
          (All-take IsByte n digest (standard.sign-AreBytes password value)))

  pbkdf2-sized :
      (standard : IsStandard subtle) (password salt : Bytes) (size : ℕ)
      → (length (pbkdf2_one_iteration subtle password salt size) ≡ size)
        × AreBytes (pbkdf2_one_iteration subtle password salt size)
  unfolding pbkdf2_one_iteration
  pbkdf2-sized standard password salt size = (
    length-pbkdf2_blocks ((size + 31) / 32) 1 password salt size (replicate size 0)
        ∙ length-replicate size 0,
    pbkdf2_blocks-AreBytes standard ((size + 31) / 32) 1 password salt size (replicate size 0)
        (All-replicate IsByte size 0 (omega arith)),
  )

  -- With standard primitives scrypt gives as many bytes as are asked for, for each supported choice of
  -- parameters, whatever the password and the salt.
  pub scrypt_sized :
      (standard : IsStandard subtle) (password salt : Bytes) (n r p size : ℕ)
      → are_unsupported n p ≡ false
      → (bytes : Bytes) × (scrypt subtle password salt n r p size ≡ ok bytes)
        × (length bytes ≡ size)
        × AreBytes bytes
  unfolding scrypt
  scrypt_sized standard password salt n r p size h =
      let initial = pbkdf2_one_iteration subtle password salt (p * 128 * r) in
      let filled = fill_memory n 0 r (bytes_to_little_words initial) (replicate (n * (32 * r)) 0) in
      let mixed = little_words_to_bytes (read_memory n n r filled.1 filled.0) in
      let sized = pbkdf2-sized standard password mixed size in
      (pbkdf2_one_iteration subtle password mixed size, rw h refl, sized.0, sized.1)

-- The memory's block that is read is one of its `n` blocks.
pub selected_block-lt : (n r : ℕ) (x : Words) → 0 < n → selected_block n r x < n
unfolding selected_block
selected_block-lt n r x h = omega (arith, bit_and-le (get_or x ((2 * r - 1) * 16) 0) (n - 1))

supported : are_unsupported 16384 1 ≡ false
unfolding are_unsupported
supported = refl

module _ (subtle : Subtle) where
  -- With standard primitives a code of four digits and a salt of 16 bytes give a credential that
  -- decodes to 32 bytes, and a wrapping key of 32 bytes.
  pub internet_invite_credentials_sized :
      (standard : IsStandard subtle) (text : Text) (salt : Bytes)
      → is_code text ≡ true
      → length salt ≡ 16
      → (c : Credentials) × (keys : Bytes) × (internet_invite_credentials subtle text salt ≡ ok c)
        × (from_base64 c.credential ≡ ok keys)
        × (length keys ≡ 32)
        × (length c.wrapping_key ≡ 32)
  unfolding internet_invite_credentials
  internet_invite_credentials_sized standard text salt code size =
      let aad = concat (ascii "DawnMesh internet invite v2" ∷ salt ∷ []) in
      let (keys, made, long, bytes) =
        scrypt_sized subtle standard text aad 16384 8 1 64 supported in
      let c : Credentials = record {
        credential = base64 (take 32 keys);
        wrapping_key = drop 32 keys;
        aad = aad;
      } in
      (
        c,
        take 32 keys,
        rw (code, size, made) refl,
        from_base64-base64 (take 32 keys) (All-take IsByte 32 keys bytes),
        omega (arith, length-take 32 keys, long),
        omega (arith, length-drop 32 keys, long),
      )
