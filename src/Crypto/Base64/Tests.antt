-- ===== src/Crypto/Base64/Tests.antt =====
-- Runs of the base64 functions of frontend/src/client/crypto.ts, and the theorems at inputs.
use dawn_mesh_server.Prelude.{◌≡◌, refl, [], ◌∷◌}
use dawn_mesh_server.Crypto.Base64.{base64, base64_url}

-- "+/8=" and "-_8".
base64_runs : base64 (251 ∷ 255 ∷ []) ≡ b'+' ∷ b'/' ∷ b'8' ∷ b'=' ∷ []
unfolding base64
base64_runs = refl

base64_url_runs : base64_url (251 ∷ 255 ∷ []) ≡ b'-' ∷ b'_' ∷ b'8' ∷ []
unfolding base64_url
base64_url_runs = refl
