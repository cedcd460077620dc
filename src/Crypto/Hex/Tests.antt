-- ===== src/Crypto/Hex/Tests.antt =====
-- Runs of the hexadecimal functions of frontend/src/client/crypto.ts.
use dawn_mesh_server.Prelude.{◌≡◌, refl, [], ◌∷◌}
use dawn_mesh_server.Crypto.Hex.{hex_bytes, digit_value}

-- "02aF" and a stray character.
hex_bytes_runs : hex_bytes (b'0' ∷ b'2' ∷ b'a' ∷ b'F' ∷ b'7' ∷ []) ≡ 2 ∷ 175 ∷ []
unfolding hex_bytes digit_value
hex_bytes_runs = refl

-- "-1" and "zz" are read as JavaScript reads them.
hex_bytes_odd : hex_bytes (b'-' ∷ b'1' ∷ b'z' ∷ b'z' ∷ []) ≡ 255 ∷ 0 ∷ []
unfolding hex_bytes digit_value
hex_bytes_odd = refl
