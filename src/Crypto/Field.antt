-- ===== src/Crypto/Field.antt =====
-- `mod` (here `mod_by`), `modPow` and `modInverse` of frontend/src/client/crypto.ts. The P-256 constants stand here.
pub mod Modular
pub mod Power
pub mod Inverse
mod Tests
use dawn_mesh_server.Prelude.{
  ℕ, zero, suc, ◌+◌, ◌-◌, ◌*◌, ◌/◌, ◌%◌, bit_and, ltb, ◌==◌, if◌then◌else◌, Result, ok, err,
  failure,
}
use dawn_mesh_server.Prelude.Int.{ℤ, pos, negsuc, ◌-ℤ◌, ◌*ℤ◌, rem_ℤ}

-- `P`, `A`, `B` and `N`: the field, the curve and its order.
abbrev pub field_prime : ℕ
field_prime = 0xffffffff00000001000000000000000000000000ffffffffffffffffffffffff

abbrev pub curve_a : ℕ
curve_a = field_prime - 3

abbrev pub curve_b : ℕ
curve_b = 0x5ac635d8aa3a93e7b3ebbd55769886bc651d06b0cc53b0f63bce3c3e27d2604b

abbrev pub curve_order : ℕ
curve_order = 0xffffffff00000000ffffffffffffffffbce6faada7179e84f3b9cac2fc632551

-- `result >= 0n ? result : result + modulus`, where `result` is above `-modulus`.
unfoldable pub lift_negative : ℤ → ℕ → ℕ
lift_negative (pos result) modulus = result
lift_negative (negsuc k) modulus = modulus - suc k

unfoldable pub mod_by : ℤ → ℕ → ℕ
unfolding rem_ℤ lift_negative
mod_by value modulus = lift_negative (rem_ℤ value modulus) modulus

-- The loop of `modPow`.
pub power_from : ℕ → ℕ → ℕ → ℕ → ℕ → ℕ
power_from zero power value result modulus = result
power_from (suc fuel) power value result modulus =
    let result' = if bit_and power 1 == 0 then result else result * value % modulus in
    let rest = power_from fuel (power / 2) (value * value % modulus) result' modulus in
    if ltb 0 power then rest else result

unfoldable pub mod_pow : ℤ → ℕ → ℕ → ℕ
unfolding mod_by power_from
mod_pow base exponent modulus = power_from (suc exponent) exponent (mod_by base modulus) 1 modulus

pub record Euclid : Type 0 where
  pub low : ℕ
  pub high : ℕ
  pub lm : ℤ
  pub hm : ℤ

unfoldable pub euclid_step : Euclid → Euclid
unfolding ◌-ℤ◌ ◌*ℤ◌
euclid_step s =
    let ratio = s.high / s.low in
    record { low = s.high - s.low * ratio; high = s.low; lm = s.hm -ℤ s.lm *ℤ pos ratio; hm = s.lm }

-- The loop of `modInverse`: `while (low > 1n)`.
pub euclid : ℕ → Euclid → Euclid
unfolding euclid_step
euclid zero s = s
euclid (suc fuel) s = let rest = euclid fuel (euclid_step s) in if ltb 1 s.low then rest else s

unfoldable pub inverse_below : ℕ → ℕ → Result ℕ
unfolding euclid mod_by
inverse_below modulus low =
    let s = euclid low (record { low = low; high = modulus; lm = pos 1; hm = pos 0 }) in
    if s.low == 1 then ok (mod_by s.lm modulus) else err (failure "invalid curve denominator")

unfoldable pub mod_inverse : ℤ → Result ℕ
unfolding mod_by inverse_below
mod_inverse value = inverse_below field_prime (mod_by value field_prime)
