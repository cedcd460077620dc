-- ===== src/Crypto/Curve/Tests.antt =====
-- Runs of the curve of frontend/src/client/crypto.ts on the base point `G`, and theorems at inputs.
use dawn_mesh_server.Prelude.{◌≡◌, refl, arith, [], ◌∷◌, some, ok, length}
use dawn_mesh_server.Crypto.Bytes.{Bytes, AreBytes, bigint_from_bytes}
use dawn_mesh_server.Prelude.Int.{◌-ℤ◌, ◌*ℤ◌}
use dawn_mesh_server.Crypto.Field.{mod_by, mod_inverse}
use dawn_mesh_server.Crypto.Curve.Encoding.{
  IsOnCurve, decode_point-encode_point, encode_point-decode_point,
}
use dawn_mesh_server.Crypto.Curve.{
  decode_point, encode_point, base_point, point_add, point_multiply, curve_error, add_points,
  double_point, add_distinct, chord, mod_p, multiply_from,
}

g_on_curve : curve_error base_point ≡ 0
unfolding curve_error mod_p mod_by ◌-ℤ◌ ◌*ℤ◌
g_on_curve = refl

-- 2 G, as published.
double_runs :
    point_add (some base_point) (some base_point)
    ≡ ok (
        some (record {
          x = 0x7cf27b188d034f7e8a52380304b51ac3c08969e277f21b35a60b48fc47669978;
          y = 0x07775510db8ed040293d9ac69f7430dbba7dade63ce982299e04b79d227873d1;
        }))
unfolding point_add add_points double_point add_distinct chord mod_inverse mod_p mod_by ◌-ℤ◌ ◌*ℤ◌
double_runs = refl

multiply_runs :
    point_multiply 3 (some base_point)
    ≡ ok (
        some (record {
          x = 0x5ecbe4d1a6330a44c8f7ef951d4bf165e6c6b721efada985fb41661bc6e7fd6c;
          y = 0x8734640c4998ff7e374b06ce1a64a2ecd82ab036384fb83d9a79b127a27d5032;
        }))
unfolding point_multiply multiply_from point_add add_points double_point add_distinct chord
    mod_inverse mod_p mod_by ◌-ℤ◌ ◌*ℤ◌
multiply_runs = refl

base_IsOnCurve : IsOnCurve base_point
base_IsOnCurve = record { x_small = omega arith; y_small = omega arith; on_curve = g_on_curve }

abbrev base_bytes : Bytes
base_bytes =
    4 ∷ 107 ∷ 23 ∷ 209 ∷ 242 ∷ 225 ∷ 44 ∷ 66 ∷ 71 ∷ 248 ∷ 188 ∷ 230 ∷ 229 ∷ 99 ∷ 164 ∷ 64 ∷ 242
    ∷ 119 ∷ 3 ∷ 125 ∷ 129 ∷ 45 ∷ 235 ∷ 51 ∷ 160 ∷ 244 ∷ 161 ∷ 57 ∷ 69 ∷ 216 ∷ 152 ∷ 194 ∷ 150 ∷ 79
    ∷ 227 ∷ 66 ∷ 226 ∷ 254 ∷ 26 ∷ 127 ∷ 155 ∷ 142 ∷ 231 ∷ 235 ∷ 74 ∷ 124 ∷ 15 ∷ 158 ∷ 22 ∷ 43 ∷ 206
    ∷ 51 ∷ 87 ∷ 107 ∷ 49 ∷ 94 ∷ 206 ∷ 203 ∷ 182 ∷ 64 ∷ 104 ∷ 55 ∷ 191 ∷ 81 ∷ 245 ∷ []

base_bytes-AreBytes : AreBytes base_bytes
base_bytes-AreBytes = omega arith

base_decodes : decode_point base_bytes ≡ ok base_point
unfolding decode_point curve_error mod_p mod_by ◌-ℤ◌ ◌*ℤ◌ bigint_from_bytes
base_decodes = refl

decode_point-encode_point_example :
    (bytes : Bytes) × (encode_point (some base_point) ≡ ok bytes)
    × (length bytes ≡ 65)
    × (decode_point bytes ≡ ok base_point)
decode_point-encode_point_example = decode_point-encode_point base_point base_IsOnCurve

encode_point-decode_point_example :
    IsOnCurve base_point × (encode_point (some base_point) ≡ ok base_bytes)
encode_point-decode_point_example =
    encode_point-decode_point base_bytes base_point base_bytes-AreBytes base_decodes
