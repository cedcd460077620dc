-- ===== src/Crypto/Field/Power.antt =====
-- `modPow` of frontend/src/client/crypto.ts computes the power.
use native.Mathlib.Nat.{
  mod-lt, mod-eq_of_lt, pow-succ', pow-zero, one-mul, mul-one, mul_comm, mul_assoc,
}
use dawn_mesh_server.Prelude.{
  ℕ, zero, suc, ◌*◌, ◌/◌, ◌%◌, ◌^◌, ◌<◌, ◌≡◌, sym, ap, ◌∙◌, arith, bit_and, ◌==◌, Bool-cases,
  lt→ltb, inl, inr,
}
use dawn_mesh_server.Prelude.Bits.{bit_and_mask}
use dawn_mesh_server.Prelude.Int.{pos, rem_ℤ}
use dawn_mesh_server.Crypto.Field.{mod_by, lift_negative, power_from, mod_pow}
use dawn_mesh_server.Crypto.Field.Modular.{mod-mul}

mod-mul_right : (m a b : ℕ) → (a * (b % m)) % m ≡ (a * b) % m
mod-mul_right m a b = rw (mul_comm a (b % m), mod-mul m b a, mul_comm b a)

mod-pow : (m a k : ℕ) → (a % m) ^ k % m ≡ a ^ k % m
mod-pow m a zero = rw (pow-zero (a % m), pow-zero a)
mod-pow m a (suc k) =
    rw
      (
        pow-succ' (a % m) k,
        pow-succ' a k,
        mod-mul m a ((a % m) ^ k),
        ← mod-mul_right m a ((a % m) ^ k),
        mod-pow m a k,
      )
      (mod-mul_right m a (a ^ k))

square-pow : (a k : ℕ) → (a * a) ^ k ≡ a ^ (2 * k)
square-pow a zero = rw (pow-zero (a * a), pow-zero a)
square-pow a (suc k) =
    let twice : 2 * suc k ≡ suc (suc (2 * k)) = omega arith in
    rw (twice, pow-succ' (a * a) k, pow-succ' a (suc (2 * k)), pow-succ' a (2 * k), square-pow a k)
      (mul_assoc a a (a ^ (2 * k)))

-- One round squares the value and halves the exponent.
halved : (r value k m : ℕ) → r * (value * value % m) ^ k % m ≡ r * value ^ (2 * k) % m
halved r value k m =
    sym (mod-mul_right m r ((value * value % m) ^ k))
    ∙ ap (λ t. r * t % m) (mod-pow m (value * value) k)
    ∙ mod-mul_right m r ((value * value) ^ k)
    ∙ ap (λ t. r * t % m) (square-pow value k)

even-power :
    (r value power m : ℕ)
    → power % 2 ≡ 0
    → r * (value * value % m) ^ (power / 2) % m ≡ r * value ^ power % m
even-power r value power m h =
    let whole : 2 * (power / 2) ≡ power = omega arith in rw whole at (halved r value (power / 2) m)

odd-power :
    (r value power m : ℕ)
    → power % 2 ≡ 1
    → r * value % m * (value * value % m) ^ (power / 2) % m ≡ r * value ^ power % m
odd-power r value power m h =
    let k = power / 2 in
    let whole : power ≡ suc (2 * k) = omega arith in
    halved (r * value % m) value k m
    ∙ mod-mul m (r * value) (value ^ (2 * k))
    ∙ ap (λ t. t % m) (mul_assoc r value (value ^ (2 * k)))
    ∙ ap (λ t. r * t % m) (sym (pow-succ' value (2 * k)))
    ∙ ap (λ t. r * value ^ t % m) (sym whole)

-- The loop multiplies the result by the power, with fuel above the exponent.
power_from_lem :
    (fuel power value result m : ℕ)
    → power < fuel
    → result < m
    → power_from fuel power value result m ≡ result * value ^ power % m
unfolding power_from
power_from_lem zero power value result m h r = absurd (omega arith)
power_from_lem (suc fuel) zero value result m h r =
    rw (pow-zero value, mul-one result) (sym (mod-eq_of_lt r))
power_from_lem (suc fuel) (suc p) value result m h r =
    let power = suc p in
    let digit = bit_and_mask 1 power in
    elim (Bool-cases (bit_and power 1 == 0)) [
      | inl even ↦
          rw (even, lt→ltb 0 (suc p) (omega arith))
            (power_from_lem fuel (power / 2) (value * value % m) result m (omega arith) r
              ∙ even-power result value power m (ground arith))
      | inr odd ↦
          rw (odd, lt→ltb 0 (suc p) (omega arith))
            (power_from_lem fuel (power / 2) (value * value % m) (result * value % m) m
                (omega arith) (mod-lt (result * value) (omega arith))
              ∙ odd-power result value power m (ground arith))
    ]

-- `modPow` of a natural base is the residue of the power, for every modulus above 1.
pub mod_pow_lem :
    (base exponent m : ℕ) → 1 < m → mod_pow (pos base) exponent m ≡ base ^ exponent % m
unfolding mod_pow mod_by lift_negative rem_ℤ
mod_pow_lem base exponent m h =
    power_from_lem (suc exponent) exponent (base % m) 1 m (omega arith) h
    ∙ rw (one-mul ((base % m) ^ exponent)) (mod-pow m base exponent)
