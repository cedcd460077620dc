-- ===== src/Crypto/Curve.antt =====
-- The P-256 points of frontend/src/client/crypto.ts: `pointAdd`, `pointMultiply`, `pointNegate`,
-- and the SEC1 encodings. `null`, the point at infinity, is `none`.
pub mod Addition
pub mod Encoding
mod Tests
use dawn_mesh_server.Prelude.{
  ℕ, zero, suc, ◌+◌, ◌-◌, ◌*◌, ◌/◌, bit_and, Bool, true, false, ◌&&◌, ◌||◌, not, List, [], ◌∷◌,
  Option, none, some, length, take, drop, get_or, ltb, leb, ◌==◌, if◌then◌else◌, Result, ok, err,
  failure, ◌>>=◌, ◌>>◌, throw_if,
}
use dawn_mesh_server.Prelude.Int.{ℤ, pos, ◌-ℤ◌, ◌*ℤ◌}
use dawn_mesh_server.Crypto.Bytes.{Bytes, bigint_from_bytes, bigint_bytes, concat}
use dawn_mesh_server.Crypto.Base64.{Text}
use dawn_mesh_server.Crypto.Hex.{hex_bytes}
use dawn_mesh_server.Crypto.Field.{
  field_prime, curve_a, curve_b, curve_order, mod_by, mod_pow, mod_inverse,
}

pub record Point : Type 0 where
  pub x : ℕ
  pub y : ℕ

-- `G`.
abbrev pub base_point : Point
base_point = record {
  x = 0x6b17d1f2e12c4247f8bce6e563a440f277037d812deb33a0f4a13945d898c296;
  y = 0x4fe342e2fe1a7f9b8ee7eb4a7c0f9e162bce33576b315ececbb6406837bf51f5;
}

-- `mod(value)`, by the default modulus.
unfoldable pub mod_p : ℤ → ℕ
mod_p value = mod_by value field_prime

-- The third point on the line of this slope through `left` and a point of abscissa `right_x`.
unfoldable pub chord : ℕ → Point → ℕ → Point
chord slope left right_x =
    let x = mod_p (pos (slope * slope) -ℤ pos left.x -ℤ pos right_x) in
    let y = mod_p (pos slope *ℤ (pos left.x -ℤ pos x) -ℤ pos left.y) in record { x = x; y = y }

unfoldable pub double_point : Point → Result (Option Point)
double_point p = do
  inverse ← mod_inverse (pos (2 * p.y))
  let slope = mod_p (pos ((3 * p.x * p.x + curve_a) * inverse))
  ok (some (chord slope p p.x))

unfoldable pub add_distinct : Point → Point → Result (Option Point)
add_distinct left right = do
  inverse ← mod_inverse (pos right.x -ℤ pos left.x)
  let slope = mod_p ((pos right.y -ℤ pos left.y) *ℤ pos inverse)
  ok (some (chord slope left right.x))

unfoldable pub add_points : Point → Point → Result (Option Point)
add_points left right =
    if left.x == right.x && mod_p (pos (left.y + right.y)) == 0
    then ok none
    else if left.x == right.x && left.y == right.y
    then (if left.y == 0 then ok none else double_point left)
    else add_distinct left right

unfoldable pub point_add : Option Point → Option Point → Result (Option Point)
point_add none right = ok right
point_add (some left) none = ok (some left)
point_add (some left) (some right) = add_points left right

-- The loop of `pointMultiply`.
unfoldable pub multiply_from : ℕ → ℕ → Option Point → Option Point → Result (Option Point)
multiply_from zero amount result addend = ok result
multiply_from (suc fuel) amount result addend =
    let rest = (if bit_and amount 1 == 0 then ok result else point_add result addend) >>= λ result'.
    point_add addend addend >>= λ addend'. multiply_from fuel (amount / 2) result' addend' in
    if ltb 0 amount then rest else ok result

unfoldable pub point_multiply : ℕ → Option Point → Result (Option Point)
point_multiply scalar point =
    let amount = mod_by (pos scalar) curve_order in multiply_from (suc amount) amount none point

unfoldable pub point_negate : Option Point → Option Point
point_negate none = none
point_negate (some point) = some (record { x = point.x; y = mod_p (pos 0 -ℤ pos point.y) })

-- `point.y² - point.x³ - A x - B`, modulo P.
unfoldable pub curve_error : Point → ℕ
curve_error p =
    mod_p (pos (p.y * p.y) -ℤ pos (p.x * p.x * p.x) -ℤ pos (curve_a * p.x) -ℤ pos curve_b)

-- A value that is no `Uint8Array` cannot be given here.
unfoldable pub decode_point : Bytes → Result Point
decode_point bytes = do
  throw_if (not (length bytes == 65) || not (get_or bytes 0 0 == 4)) "invalid SEC1 point"
  let point : Point = record {
    x = bigint_from_bytes (take 32 (drop 1 bytes));
    y = bigint_from_bytes (drop 33 bytes);
  }
  throw_if (leb field_prime point.x || leb field_prime point.y || not (curve_error point == 0))
      "point is not on P-256"
  ok point

unfoldable pub encode_point : Option Point → Result Bytes
encode_point none = err (failure "point at infinity")
encode_point (some point) = do
  x ← bigint_bytes point.x 32
  y ← bigint_bytes point.y 32
  ok (concat ((4 ∷ []) ∷ x ∷ y ∷ []))

unfoldable pub decode_compressed : Text → Point
decode_compressed hex =
    let bytes = hex_bytes hex in
    let x = bigint_from_bytes (drop 1 bytes) in
    let y_squared = mod_p (pos (x * x * x + curve_a * x + curve_b)) in
    let y = mod_pow (pos y_squared) ((field_prime + 1) / 4) field_prime in
    let odd = bit_and y 1 in
    record { x = x; y = if odd == bit_and (get_or bytes 0 0) 1 then y else field_prime - y }
