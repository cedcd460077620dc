-- ===== src/Crypto/Curve/Encoding.antt =====
-- SEC1 encodings: `decodePoint` and `encodePoint`.
use mathlib.Core.List.{flatten, append-nil}
use dawn_mesh_server.Prelude.{
  ℕ, ◌^◌, ◌<◌, ◌≡◌, sym, ap, ap₂, ◌∙◌, arith, false, [], ◌∷◌, ◌++◌, some, length, take, drop,
  get_or, take_append, drop_append, length-append, length-take, length-drop, take-append-drop,
  All-take, All-drop, leb, ok,
}
use dawn_mesh_server.Crypto.Bytes.{Bytes, IsByte, AreBytes, bigint_from_bytes, bigint_bytes, concat}
use dawn_mesh_server.Crypto.Bytes.Integers.{
  bigint_from_bytes-bigint_bytes, bigint_bytes-bigint_from_bytes,
}
use dawn_mesh_server.Crypto.Bytes.Joining.{concat-flatten}
use dawn_mesh_server.Crypto.Field.{field_prime}
use dawn_mesh_server.Crypto.Curve.{Point, curve_error, decode_point, encode_point}

-- A point of P-256 in affine coordinates.
pub record IsOnCurve (p : Point) : Type 0 where
  pub x_small : p.x < field_prime
  pub y_small : p.y < field_prime
  pub on_curve : curve_error p ≡ 0

joined : (xs ys : Bytes) → concat ((4 ∷ []) ∷ xs ∷ ys ∷ []) ≡ 4 ∷ (xs ++ ys)
unfolding flatten
joined xs ys = concat-flatten ((4 ∷ []) ∷ xs ∷ ys ∷ []) ∙ rw (append-nil ys)

below : {v : ℕ} → v < field_prime → v < 256 ^ 32
below h = omega arith

decode_parts :
    (p : Point) (xs ys : Bytes)
    → length xs ≡ 32
    → length ys ≡ 32
    → bigint_from_bytes xs ≡ p.x
    → bigint_from_bytes ys ≡ p.y
    → IsOnCurve p
    → decode_point (4 ∷ (xs ++ ys)) ≡ ok p
unfolding decode_point
decode_parts p xs ys lx ly vx vy h =
    let size : length (xs ++ ys) ≡ 64 = omega (arith, length-append xs ys) in
    let low_x : leb field_prime p.x ≡ false = lt→leb p.x h.x_small in
    let low_y : leb field_prime p.y ≡ false = lt→leb p.y h.y_small in
    rw (size, take_append 32 xs ys lx, drop_append 32 xs ys lx, vx, vy, low_x, low_y, h.on_curve)
  where
    lt→leb : (v : ℕ) → v < field_prime → leb field_prime v ≡ false
    lt→leb v less = ground arith

-- A point of the curve is written in 65 bytes, and is read back from them.
pub decode_point-encode_point :
    (p : Point)
    → IsOnCurve p
    → (bytes : Bytes) × (encode_point (some p) ≡ ok bytes)
      × (length bytes ≡ 65)
      × (decode_point bytes ≡ ok p)
unfolding encode_point
decode_point-encode_point p h =
    let (xs, x_ok, x_long, x_bytes, x_value) =
      bigint_from_bytes-bigint_bytes 32 p.x (below h.x_small) in
    let (ys, y_ok, y_long, y_bytes, y_value) =
      bigint_from_bytes-bigint_bytes 32 p.y (below h.y_small) in
    (
      4 ∷ (xs ++ ys),
      rw (x_ok, y_ok) (ap ok (joined xs ys)),
      omega (arith, length-append xs ys),
      decode_parts p xs ys x_long y_long x_value y_value h,
    )

decoded :
    (bytes : Bytes) {p : Point}
    → decode_point bytes ≡ ok p
    → (length bytes ≡ 65)
      × (get_or bytes 0 0 ≡ 4)
      × (p.x ≡ bigint_from_bytes (take 32 (drop 1 bytes)))
      × (p.y ≡ bigint_from_bytes (drop 33 bytes))
      × IsOnCurve p
unfolding decode_point
decoded bytes h = ground arith

-- Bytes that are accepted decode to a point of the curve, and are what is written for that point.
pub encode_point-decode_point :
    (bytes : Bytes) (p : Point)
    → AreBytes bytes
    → decode_point bytes ≡ ok p
    → IsOnCurve p × (encode_point (some p) ≡ ok bytes)
unfolding encode_point
encode_point-decode_point [] p b h = absurd (omega (arith, (decoded [] h).0))
encode_point-decode_point (first ∷ rest) p b h =
    let d = decoded (first ∷ rest) h in
    let size : length rest ≡ 64 = omega (arith, d.0) in
    let x_long : length (take 32 rest) ≡ 32 = omega (arith, length-take 32 rest) in
    let y_long : length (drop 32 rest) ≡ 32 = omega (arith, length-drop 32 rest) in
    let x_ok =
      rw x_long at (bigint_bytes-bigint_from_bytes (take 32 rest) (All-take IsByte 32 rest b.1)) in
    let y_ok =
      rw y_long at (bigint_bytes-bigint_from_bytes (drop 32 rest) (All-drop IsByte 32 rest b.1)) in
    let whole : 4 ∷ (take 32 rest ++ drop 32 rest) ≡ first ∷ rest =
      ap₂ ◌∷◌ (sym d.1) (take-append-drop 32 rest) in
    let x_ok' : bigint_bytes p.x 32 ≡ ok (take 32 rest) = rw d.2 x_ok in
    let y_ok' : bigint_bytes p.y 32 ≡ ok (drop 32 rest) = rw d.3 y_ok in
    (d.4, rw (x_ok', y_ok') (ap ok (joined (take 32 rest) (drop 32 rest) ∙ whole)))
