-- ===== src/Crypto/Field/Tests.antt =====
-- Runs of the field functions of frontend/src/client/crypto.ts, and the theorems at inputs.
use dawn_mesh_server.Prelude.{◌≡◌, refl, ok}
use dawn_mesh_server.Prelude.Int.{pos, negsuc}
use dawn_mesh_server.Crypto.Field.{mod_by, mod_pow, inverse_below, mod_inverse}

mod_by_runs : mod_by (negsuc 7) 5 ≡ 2
unfolding mod_by
mod_by_runs = refl

mod_pow_runs : mod_pow (pos 7) 560 561 ≡ 1
unfolding mod_pow
mod_pow_runs = refl

-- The inverse of 2 in the field is (P + 1) / 2.
mod_inverse_runs :
    mod_inverse (pos 2) ≡ ok 0x7fffffff80000000800000000000000000000000800000000000000000000000
unfolding mod_inverse
mod_inverse_runs = refl

inverse_below_runs : inverse_below 7 3 ≡ ok 5
unfolding inverse_below
inverse_below_runs = refl
