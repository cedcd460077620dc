-- ===== src/Crypto/Bytes/Tests.antt =====
-- Runs of frontend/src/client/crypto.ts's byte helpers, and the theorems at concrete inputs.
use dawn_mesh_server.Prelude.{◌≡◌, refl, [], ◌∷◌, ok}
use dawn_mesh_server.Crypto.Bytes.{bigint_bytes, uint64_le, concat}

bigint_bytes_runs : bigint_bytes 258 4 ≡ ok (0 ∷ 0 ∷ 1 ∷ 2 ∷ [])
unfolding bigint_bytes
bigint_bytes_runs = refl

uint64_le_runs : uint64_le 513 ≡ 1 ∷ 2 ∷ 0 ∷ 0 ∷ 0 ∷ 0 ∷ 0 ∷ 0 ∷ []
unfolding uint64_le
uint64_le_runs = refl

concat_runs : concat ((1 ∷ 2 ∷ []) ∷ [] ∷ (3 ∷ []) ∷ []) ≡ 1 ∷ 2 ∷ 3 ∷ []
unfolding concat
concat_runs = refl
