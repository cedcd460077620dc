-- ===== src/Crypto/Spake2/Tests.antt =====
-- Runs of the scalar and the session of `Spake2`, and the theorems at inputs.
use dawn_mesh_server.Prelude.{
  ◌≡◌, refl, arith, true, false, List, [], ◌∷◌, none, some, replicate, ◌++◌, ◌∙◌, sym, ◌>>=◌, ok,
  err, failure,
}
use dawn_mesh_server.Crypto.Bytes.{Bytes, bigint_from_bytes, bigint_bytes, concat}
use dawn_mesh_server.Crypto.Hex.{hex_bytes, digit_value}
use dawn_mesh_server.Prelude.Int.{◌-ℤ◌, ◌*ℤ◌}
use dawn_mesh_server.Crypto.Field.{mod_by, mod_inverse, mod_pow}
use dawn_mesh_server.Crypto.Curve.{
  Point, point_add, point_multiply, point_negate, curve_error, add_points, double_point,
  add_distinct, chord, mod_p, multiply_from, decode_point, encode_point, decode_compressed,
}
use dawn_mesh_server.Crypto.Chat.Tests.{plain}
use dawn_mesh_server.Crypto.Spake2.{
  Spake2, new_spake2, or_invalid, mask_m, mask_n, random_scalar, shared_point, finish,
}
use dawn_mesh_server.Crypto.Spake2.Session.{finish_once, finish_agree}
use dawn_mesh_server.Crypto.Spake2.Transcript.{transcript_of_injective}

-- The message of each side, from its secret and the masks times the password scalar 2.
abbrev message_a : Bytes
message_a =
    4 ∷ 78 ∷ 81 ∷ 33 ∷ 132 ∷ 187 ∷ 154 ∷ 209 ∷ 239 ∷ 86 ∷ 202 ∷ 226 ∷ 197 ∷ 206 ∷ 50 ∷ 144 ∷ 34
    ∷ 120 ∷ 215 ∷ 241 ∷ 243 ∷ 50 ∷ 59 ∷ 191 ∷ 51 ∷ 51 ∷ 192 ∷ 78 ∷ 214 ∷ 171 ∷ 19 ∷ 54 ∷ 115 ∷ 173
    ∷ 63 ∷ 35 ∷ 53 ∷ 6 ∷ 137 ∷ 166 ∷ 179 ∷ 207 ∷ 144 ∷ 45 ∷ 85 ∷ 43 ∷ 37 ∷ 157 ∷ 49 ∷ 99 ∷ 189 ∷ 63
    ∷ 170 ∷ 9 ∷ 159 ∷ 176 ∷ 16 ∷ 176 ∷ 110 ∷ 217 ∷ 166 ∷ 170 ∷ 120 ∷ 34 ∷ 169 ∷ []

abbrev message_b : Bytes
message_b =
    4 ∷ 17 ∷ 140 ∷ 104 ∷ 72 ∷ 231 ∷ 56 ∷ 39 ∷ 38 ∷ 50 ∷ 201 ∷ 46 ∷ 69 ∷ 235 ∷ 247 ∷ 192 ∷ 104 ∷ 165
    ∷ 237 ∷ 5 ∷ 181 ∷ 191 ∷ 200 ∷ 187 ∷ 116 ∷ 140 ∷ 32 ∷ 196 ∷ 214 ∷ 143 ∷ 181 ∷ 165 ∷ 100 ∷ 218
    ∷ 153 ∷ 93 ∷ 189 ∷ 184 ∷ 36 ∷ 99 ∷ 37 ∷ 157 ∷ 56 ∷ 78 ∷ 13 ∷ 219 ∷ 129 ∷ 119 ∷ 110 ∷ 238 ∷ 234
    ∷ 151 ∷ 218 ∷ 194 ∷ 72 ∷ 37 ∷ 0 ∷ 103 ∷ 252 ∷ 82 ∷ 152 ∷ 35 ∷ 22 ∷ 30 ∷ 222 ∷ []

-- The secret 2 with the mask `M`, and the secret 3 with the mask `N`.
abbrev side_a : Spake2
side_a = record {
  is_a = true;
  password_scalar = 2;
  secret = 2;
  used = false;
  point = none;
  message = message_a;
}

abbrev side_b : Spake2
side_b = record {
  is_a = false;
  password_scalar = 2;
  secret = 3;
  used = false;
  point = none;
  message = message_b;
}

abbrev six_g : Point
six_g = record {
  x = 0xb01a172a76a4602c92d3242cb897dde3024c740debb215b4c6b0aae93c2291a9;
  y = 0xe85c10743237dad56fec0e2dfba703791c00f7701c7e16bdfd7c48538fc77fe2;
}

shared_a : shared_point side_a message_b ≡ ok six_g
unfolding shared_point or_invalid decode_point curve_error decode_compressed point_multiply
    multiply_from point_add add_points double_point add_distinct chord point_negate encode_point
    mod_inverse mod_pow mod_p mod_by ◌-ℤ◌ ◌*ℤ◌ mask_m mask_n bigint_from_bytes hex_bytes digit_value
shared_a = refl

shared_b : shared_point side_b message_a ≡ ok six_g
unfolding shared_point or_invalid decode_point curve_error decode_compressed point_multiply
    multiply_from point_add add_points double_point add_distinct chord point_negate encode_point
    mod_inverse mod_pow mod_p mod_by ◌-ℤ◌ ◌*ℤ◌ mask_m mask_n bigint_from_bytes hex_bytes digit_value
shared_b = refl

created_a : (new_spake2 true 2 2 >>= λ s. ok s.message) ≡ ok message_a
unfolding new_spake2 bigint_bytes concat or_invalid decode_point curve_error decode_compressed
    point_multiply multiply_from point_add add_points double_point add_distinct chord point_negate
    encode_point mod_inverse mod_pow mod_p mod_by ◌-ℤ◌ ◌*ℤ◌ mask_m mask_n bigint_from_bytes
    hex_bytes digit_value
created_a = refl

finish_agree_example :
    (finish plain side_a message_b [] []).1 ≡ (finish plain side_b message_a [] []).1
finish_agree_example =
    finish_agree plain side_a side_b [] [] refl refl refl refl refl (shared_a ∙ sym shared_b)

zero_drawn_again : random_scalar (replicate 32 0 ∷ (replicate 31 0 ++ 5 ∷ []) ∷ []) ≡ some 5
unfolding random_scalar bigint_from_bytes
zero_drawn_again = refl

finish_once_example :
    finish plain (record side_a { used = true }) (9 ∷ []) [] []
    ≡ (record side_a { used = true }, err (failure "PAKE ephemeral must not be reused"))
unfolding finish
finish_once_example = finish_once plain side_a (9 ∷ []) [] [] (9 ∷ []) [] []

abbrev fields : List Bytes
fields = (1 ∷ []) ∷ [] ∷ []

transcript_of_injective_example : fields ≡ fields
transcript_of_injective_example =
    transcript_of_injective fields fields refl (omega arith) (omega arith) refl
