-- ===== src/Crypto/Curve/Addition.antt =====
-- What `pointAdd` and `pointMultiply` keep and when they end.
use mathlib.Core.Path.{fun_ext}
use native.Mathlib.Nat.{zero-mod, suc-add}
use dawn_mesh_server.Prelude.{
  ℕ, zero, suc, ◌+◌, ◌*◌, ◌/◌, ◌%◌, ◌<◌, ◌≡◌, refl, ap, ◌∙◌, arith, Bool, true, false, ◌&&◌, Option,
  none, some, ltb, ◌==◌, bit_and, if◌then◌else◌, Result, ok, err, ◌>>=◌, Bool-cases, inl, inr,
  eq→==, ltb→lt,
}
use dawn_mesh_server.Prelude.Int.{ℤ, pos, ◌-ℤ◌, ◌*ℤ◌, -ℤ_parts, rem_ℤ}
use dawn_mesh_server.Crypto.Field.{
  field_prime, curve_a, curve_order, mod_by, lift_negative, mod_inverse,
}
use dawn_mesh_server.Crypto.Field.Modular.{Congruent, Congruent-mod, mod_by_lem}
use dawn_mesh_server.Crypto.Curve.{
  Point, mod_p, chord, double_point, add_distinct, add_points, point_add, point_negate,
  multiply_from, point_multiply,
}

-- Coordinates are least residues.
abbrev pub IsReduced : Option Point → Type 0
IsReduced none = Unit {0}
IsReduced (some p) = (p.x < field_prime) × (p.y < field_prime)

mod_p-lt : (value : ℤ) → mod_p value < field_prime
unfolding mod_p
mod_p-lt value = (mod_by_lem value field_prime (omega arith)).0

chord-IsReduced :
    (slope : ℕ) (left : Point) (right_x : ℕ) → IsReduced (some (chord slope left right_x))
unfolding chord
chord-IsReduced slope left right_x =
    let x = mod_p (pos (slope * slope) -ℤ pos left.x -ℤ pos right_x) in
    (
      mod_p-lt (pos (slope * slope) -ℤ pos left.x -ℤ pos right_x),
      mod_p-lt (pos slope *ℤ (pos left.x -ℤ pos x) -ℤ pos left.y),
    )

-- A result that is reached, and is a reduced point or the point at infinity.
abbrev pub YieldsReduced : Result (Option Point) → Type 0
YieldsReduced (ok point) = IsReduced point
YieldsReduced (err e) = Unit {0}

double_point-YieldsReduced : (p : Point) → YieldsReduced (double_point p)
unfolding double_point
double_point-YieldsReduced p = from (mod_inverse (pos (2 * p.y)))
  where
    from :
        (inverse : Result ℕ)
        → YieldsReduced
            (inverse >>= λ i. ok (some (chord (mod_p (pos ((3 * p.x * p.x + curve_a) * i))) p p.x)))
    from (ok i) = chord-IsReduced (mod_p (pos ((3 * p.x * p.x + curve_a) * i))) p p.x
    from (err e) = tt

add_distinct-YieldsReduced : (left right : Point) → YieldsReduced (add_distinct left right)
unfolding add_distinct
add_distinct-YieldsReduced left right = from (mod_inverse (pos right.x -ℤ pos left.x))
  where
    from :
        (inverse : Result ℕ)
        → YieldsReduced (
            inverse >>= λ i.
            ok (some (chord (mod_p ((pos right.y -ℤ pos left.y) *ℤ pos i)) left right.x)))
    from (ok i) = chord-IsReduced (mod_p ((pos right.y -ℤ pos left.y) *ℤ pos i)) left right.x
    from (err e) = tt

if-YieldsReduced :
    (b : Bool) (m n : Result (Option Point))
    → YieldsReduced m
    → YieldsReduced n
    → YieldsReduced (if b then m else n)
if-YieldsReduced true m n hm hn = hm
if-YieldsReduced false m n hm hn = hn

-- Sums of reduced points are reduced.
point_add-YieldsReduced :
    (left right : Option Point)
    → IsReduced left
    → IsReduced right
    → YieldsReduced (point_add left right)
unfolding point_add add_points
point_add-YieldsReduced none right hl hr = hr
point_add-YieldsReduced (some left) none hl hr = hl
point_add-YieldsReduced (some left) (some right) hl hr =
    let equal = left.x == right.x && left.y == right.y in
    let doubled = if left.y == 0 then ok none else double_point left in
    let opposite = left.x == right.x && mod_p (pos (left.y + right.y)) == 0 in
    let distinct = add_distinct left right in
    if-YieldsReduced opposite (ok none) (if equal then doubled else distinct) tt (
      if-YieldsReduced equal doubled distinct
        (if-YieldsReduced (left.y == 0) (ok none) (double_point left) tt
          (double_point-YieldsReduced left))
        (add_distinct-YieldsReduced left right))

>>=-YieldsReduced :
    (m : Result (Option Point)) (f : Option Point → Result (Option Point))
    → YieldsReduced m
    → ((p : Option Point) → IsReduced p → YieldsReduced (f p))
    → YieldsReduced (m >>= f)
>>=-YieldsReduced (ok p) f h k = k p h
>>=-YieldsReduced (err e) f h k = tt

multiply_from-YieldsReduced :
    (fuel amount : ℕ) (result addend : Option Point)
    → IsReduced result
    → IsReduced addend
    → YieldsReduced (multiply_from fuel amount result addend)
unfolding multiply_from
multiply_from-YieldsReduced zero amount result addend hr ha = hr
multiply_from-YieldsReduced (suc fuel) amount result addend hr ha =
    let added = if bit_and amount 1 == 0 then ok result else point_add result addend in
    let again = λ (result' : Option Point).
      point_add addend addend >>= λ addend'. multiply_from fuel (amount / 2) result' addend' in
    if-YieldsReduced (ltb 0 amount) (added >>= again) (ok result)
      (>>=-YieldsReduced added again
        (if-YieldsReduced (bit_and amount 1 == 0) (ok result) (point_add result addend) hr
          (point_add-YieldsReduced result addend hr ha))
        λ result' hr'.
          >>=-YieldsReduced (point_add addend addend)
            (λ addend'. multiply_from fuel (amount / 2) result' addend')
            (point_add-YieldsReduced addend addend ha ha)
            λ addend' ha'. multiply_from-YieldsReduced fuel (amount / 2) result' addend' hr' ha')
      hr

-- Whatever `pointMultiply` returns for a reduced point is a reduced point or the point at infinity.
pub point_multiply-YieldsReduced :
    (scalar : ℕ) (point : Option Point)
    → IsReduced point
    → YieldsReduced (point_multiply scalar point)
unfolding point_multiply
point_multiply-YieldsReduced scalar point h =
    let amount = mod_by (pos scalar) curve_order in
    multiply_from-YieldsReduced (suc amount) amount none point tt h

-- The loop has read all of `amount` when the fuel is above it: more fuel changes nothing.
multiply_from-fuel :
    (fuel more amount : ℕ) (result addend : Option Point)
    → amount < fuel
    → multiply_from (fuel + more) amount result addend ≡ multiply_from fuel amount result addend
unfolding multiply_from
multiply_from-fuel zero more amount result addend h = absurd (omega arith)
multiply_from-fuel (suc fuel) more amount result addend h = elim (Bool-cases (ltb 0 amount)) [
  | inl positive ↦
      let pos_amount = ltb→lt 0 amount positive in
      rw (suc-add fuel more, positive)
        (ap
          (λ k.
            (if bit_and amount 1 == 0 then ok result else point_add result addend) >>= λ result'.
            point_add addend addend >>= λ addend'. k result' addend')
          (fun_ext λ result'.
            fun_ext
              λ addend'. multiply_from-fuel fuel more (amount / 2) result' addend' (omega arith)))
  | inr done ↦ rw (suc-add fuel more, done)
]

-- `pointMultiply` is the loop run to its end: giving it more steps than the scalar's residue plus one
-- changes nothing.
pub point_multiply_fuel :
    (scalar more : ℕ) (point : Option Point)
    → multiply_from
        (suc (mod_by (pos scalar) curve_order) + more)
        (mod_by (pos scalar) curve_order)
        none
        point
      ≡ point_multiply scalar point
unfolding point_multiply
point_multiply_fuel scalar more point =
    let amount = mod_by (pos scalar) curve_order in
    multiply_from-fuel (suc amount) more amount none point (omega arith)

mod_negated : (m y : ℕ) → 0 < m → (y + mod_by (pos 0 -ℤ pos y) m) % m ≡ 0
mod_negated m y h =
    let value = pos 0 -ℤ pos y in
    let residue = (mod_by_lem value m h).1 in
    let sum : Congruent m (y + mod_by value m) 0 = record {
      left = residue.left;
      right = residue.right;
      balance = omega (arith, residue.balance, -ℤ_parts (pos 0) (pos y));
    } in
    Congruent-mod m (y + mod_by value m) 0 sum ∙ zero-mod m

mod_p-negated : (y : ℕ) → mod_p (pos (y + mod_p (pos 0 -ℤ pos y))) ≡ 0
unfolding mod_p
mod_p-negated y =
    unfold_pos (y + mod_by (pos 0 -ℤ pos y) field_prime) ∙ mod_negated field_prime y (omega arith)
  where
    unfold_pos : (n : ℕ) → mod_by (pos n) field_prime ≡ n % field_prime
    unfold_pos n = unfold mod_by lift_negative rem_ℤ in refl

-- A point and its negation add up to the point at infinity, and that point changes nothing.
pub point_add-point_negate :
    (point : Option Point)
    → (point_add point (point_negate point) ≡ ok none)
      × (point_add point none ≡ ok point)
      × (point_add none point ≡ ok point)
unfolding point_add add_points point_negate
point_add-point_negate none = (refl, refl, refl)
point_add-point_negate (some p) = (rw (eq→== p.x p.x refl, mod_p-negated p.y), refl, refl)
