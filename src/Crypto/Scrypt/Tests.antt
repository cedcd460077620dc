-- ===== src/Crypto/Scrypt/Tests.antt =====
-- The Salsa20/8 vector of RFC 7914 for frontend/src/client/crypto.ts, and the theorems at inputs.
use dawn_mesh_server.Prelude.{
  ◌+◌, ◌%◌, ◌^◌, get_or, ◌≡◌, refl, arith, [], ◌∷◌, ok, length, replicate,
}
use dawn_mesh_server.Crypto.Bytes.{Bytes}
use dawn_mesh_server.Crypto.Base64.{from_base64}
use dawn_mesh_server.Crypto.Chat.Tests.{plain, plain-IsStandard}
use dawn_mesh_server.Crypto.Scrypt.{
  Words, Credentials, rotate_left, apply_step, apply_steps, apply_rounds, add_words, salsa208,
  is_code, internet_invite_credentials,
}
use dawn_mesh_server.Crypto.Scrypt.Rounds.{AreBlock}
use dawn_mesh_server.Crypto.Scrypt.Salsa.{rotated, salsa_rounds, salsa208_lem}
use dawn_mesh_server.Crypto.Scrypt.Output.{internet_invite_credentials_sized}

abbrev block : Words
block =
    0x219a877e ∷ 0x86c93e4f ∷ 0xe640a97c ∷ 0x268f7141 ∷ 0x5b55eeba ∷ 0xb5c1618c ∷ 0x1146f80d
    ∷ 0x1d3bcd6d ∷ 0x19f324ee ∷ 0x853d9bdf ∷ 0x4b1e1214 ∷ 0x32aac55a ∷ 0x291d0276 ∷ 0x2948c709
    ∷ 0x8dc6ebed ∷ 0x5ec2b8b8 ∷ []

salsa208_runs :
    salsa208 block
    ≡ 0x9c851fa4 ∷ 0x99cc0866 ∷ 0xcbca813b ∷ 0x5ef0c02 ∷ 0x81214b04 ∷ 0x7d33fda2 ∷ 0x631c7bfd
      ∷ 0x292f6896 ∷ 0x683139b4 ∷ 0xbce6c9e3 ∷ 0xb7c56bfe ∷ 0xba966da0 ∷ 0x10cc24e4 ∷ 0x5c74912c
      ∷ 0x3d67ad24 ∷ 0x818f61c7 ∷ []
unfolding salsa208 add_words apply_rounds apply_steps apply_step rotate_left
salsa208_runs = refl

block-AreBlock : AreBlock 16 block
block-AreBlock = record { size = refl; words = omega arith }

salsa208_lem_example :
    get_or (salsa208 block) 13 0
    ≡ (get_or block 13 0 + get_or (salsa_rounds rotated 4 block) 13 0) % 2 ^ 32
salsa208_lem_example = salsa208_lem block 13 refl (omega arith)

internet_invite_credentials_sized_example :
    (c : Credentials) × (keys : Bytes) × (internet_invite_credentials plain
        (48 ∷ 49 ∷ 50 ∷ 51 ∷ [])
        (replicate 16 7)
      ≡ ok c)
    × (from_base64 c.credential ≡ ok keys)
    × (length keys ≡ 32)
    × (length c.wrapping_key ≡ 32)
internet_invite_credentials_sized_example =
    internet_invite_credentials_sized plain plain-IsStandard (48 ∷ 49 ∷ 50 ∷ 51 ∷ [])
      (replicate 16 7) (unfold is_code in refl) refl
