-- ===== src/Prelude/Bits.antt =====
-- Laws of the native bit operations, for every width, from the equation for the lowest digit.
use Prim.Native.Nat.{
  ℕ, zero, suc, ◌+◌, ◌-◌, ◌*◌, ◌/◌, ◌%◌, ◌^◌, ◌≤◌, ◌<◌, min, max, bit_and, bit_or, bit_xor, digits,
  bitwise, differ, bit_and-bitwise, bit_or-bitwise, bit_xor-bitwise,
}
use mathlib.Core.Path.{◌≡◌, refl, ap}
use mathlib.Core.WellFounded.{Acc, WellFounded}
use native.Mathlib.Omega.{arith}
use native.Mathlib.Nat.{pow-suc, one-le-pow, div-add-mod', mod-lt}

Acc-below : (k n : ℕ) → n < k → Acc ◌<◌ n
Acc-below zero n h = elim h [ ]
Acc-below (suc k) n h = Acc.intro n (λ m hm. Acc-below k m (omega arith))

pub lt_wf : WellFounded ◌<◌
lt_wf = record { apply = λ n. Acc-below (suc n) n (omega arith) }

-- The count of digits that the recursion is given does not matter, once it is enough.
module _ (z : ℕ → ℕ) (f : ℕ → ℕ → ℕ) where
  digits_enough : (n m a b : ℕ) → a ≤ n → a ≤ m → digits z f n a b ≡ digits z f m a b
  digits_enough zero zero a b p q = refl
  digits_enough zero (suc m) zero b p q = refl
  digits_enough zero (suc m) (suc a) b p q = absurd (omega arith)
  digits_enough (suc n) zero zero b p q = refl
  digits_enough (suc n) zero (suc a) b p q = absurd (omega arith)
  digits_enough (suc n) (suc m) zero b p q = refl
  digits_enough (suc n) (suc m) (suc a) b p q =
      rw (digits_enough n m (suc a / 2) (b / 2) (omega arith) (omega arith))

  bitwise_step :
      (left right : ℕ)
      → bitwise z f (suc left) right
        ≡ f (suc left % 2) (right % 2) + bitwise z f (suc left / 2) (right / 2) * 2
  bitwise_step left right =
      let half = suc left / 2 in
      omega (arith, digits_enough left half half (right / 2) (omega arith) (omega arith))

pub bit_or_step :
    (left right : ℕ)
    → bit_or left right ≡ bit_or (left / 2) (right / 2) * 2 + max (left % 2) (right % 2)
bit_or_step (suc left) right =
    simp bit_or-bitwise (omega (arith, bitwise_step (λ y. y) max left right))
bit_or_step zero right = simp bit_or-bitwise (omega arith)

zero-bit_xor : (b : ℕ) → bit_xor 0 b ≡ b
zero-bit_xor b = bit_xor-bitwise 0 b

pub bit_and_step :
    (left right : ℕ)
    → bit_and left right ≡ bit_and (left / 2) (right / 2) * 2 + min (left % 2) (right % 2)
bit_and_step (suc left) right =
    simp bit_and-bitwise (omega (arith, bitwise_step (λ y. 0) min left right))
bit_and_step zero right = simp bit_and-bitwise (omega arith)

pub bit_xor_step : (a b : ℕ) → bit_xor a b ≡ bit_xor (a / 2) (b / 2) * 2 + differ (a % 2) (b % 2)
bit_xor_step zero b = omega (arith, zero-bit_xor b, zero-bit_xor (b / 2), zero-differ (b % 2))
  where
    zero-differ : (y : ℕ) → differ 0 y ≡ y
    zero-differ y = refl
bit_xor_step (suc a) b = simp bit_xor-bitwise (omega (arith, bitwise_step (λ y. y) differ a b))

-- Two binary digits.
differ_twice : (x y : ℕ) → x < 2 → y < 2 → (differ x y < 2) × (differ (differ x y) y ≡ x)
differ_twice zero zero hx hy = (omega arith, refl)
differ_twice zero (suc zero) hx hy = (omega arith, refl)
differ_twice (suc zero) zero hx hy = (omega arith, refl)
differ_twice (suc zero) (suc zero) hx hy = (omega arith, refl)
differ_twice zero (suc (suc y)) hx hy = absurd (omega arith)
differ_twice (suc zero) (suc (suc y)) hx hy = absurd (omega arith)
differ_twice (suc (suc x)) y hx hy = absurd (omega arith)

bit_xor_halves :
    (a b : ℕ)
    → (bit_xor a b / 2 ≡ bit_xor (a / 2) (b / 2)) × (bit_xor a b % 2 ≡ differ (a % 2) (b % 2))
bit_xor_halves a b =
    omega (arith, bit_xor_step a b, differ_twice (a % 2) (b % 2) (omega arith) (omega arith))

bit_xor_cancel_below : (n a b : ℕ) → a ≤ n → b ≤ n → bit_xor (bit_xor a b) b ≡ a
bit_xor_cancel_below zero a b ha hb =
    let e : a ≡ 0 = omega arith in let f : b ≡ 0 = omega arith in rw (e, f)
bit_xor_cancel_below (suc n) a b ha hb =
    rw (bit_xor_step (bit_xor a b) b, (bit_xor_halves a b).0, (bit_xor_halves a b).1)
      (omega (
        arith,
        bit_xor_cancel_below n (a / 2) (b / 2) (omega arith) (omega arith),
        differ_twice (a % 2) (b % 2) (omega arith) (omega arith),
      ))

-- Exclusive or with the same number twice changes nothing.
pub bit_xor_cancel : (a b : ℕ) → bit_xor (bit_xor a b) b ≡ a
bit_xor_cancel a b = bit_xor_cancel_below (a + b) a b (omega arith) (omega arith)

pub eq_of_bit_xor-zero : (a b : ℕ) → bit_xor a b ≡ 0 → a ≡ b
eq_of_bit_xor-zero a b h =
    omega (arith, ap (λ x. bit_xor x b) h, bit_xor_cancel a b, zero-bit_xor b)

bit_xor_self_below : (n a : ℕ) → a ≤ n → bit_xor a a ≡ 0
bit_xor_self_below zero a h = let e : a ≡ 0 = omega arith in rw e
bit_xor_self_below (suc n) a h =
    omega (arith, bit_xor_step a a, bit_xor_self_below n (a / 2) (omega arith), same (a % 2))
  where
    same : (x : ℕ) → differ x x ≡ 0
    same zero = refl
    same (suc x) = same x

pub bit_xor_self : (a : ℕ) → bit_xor a a ≡ 0
bit_xor_self a = bit_xor_self_below a a (omega arith)

-- Operands of `k` digits give a result of `k` digits.
pub bit_xor-lt : (k a b : ℕ) → a < 2 ^ k → b < 2 ^ k → bit_xor a b < 2 ^ k
bit_xor-lt zero a b ha hb =
    let e : a ≡ 0 = omega arith in let f : b ≡ 0 = omega arith in rw (e, f) (omega arith)
bit_xor-lt (suc k) a b ha hb =
    let s = pow-suc 2 k in
    omega (
      arith,
      bit_xor_step a b,
      differ_twice (a % 2) (b % 2) (omega arith) (omega arith),
      bit_xor-lt k (a / 2) (b / 2) (omega arith) (omega arith),
    )

pub bit_or-lt : (k a b : ℕ) → a < 2 ^ k → b < 2 ^ k → bit_or a b < 2 ^ k
bit_or-lt zero a b ha hb =
    let e : a ≡ 0 = omega arith in let f : b ≡ 0 = omega arith in rw (e, f) (omega arith)
bit_or-lt (suc k) a b ha hb =
    let s = pow-suc 2 k in
    omega (arith, bit_or_step a b, bit_or-lt k (a / 2) (b / 2) (omega arith) (omega arith))

bit_or-ge_below : (n a b : ℕ) → a ≤ n → b ≤ n → (a ≤ bit_or a b) × (b ≤ bit_or a b)
bit_or-ge_below zero a b ha hb =
    let e : a ≡ 0 = omega arith in let f : b ≡ 0 = omega arith in rw (e, f) (omega arith)
bit_or-ge_below (suc n) a b ha hb =
    omega (arith, bit_or_step a b, bit_or-ge_below n (a / 2) (b / 2) (omega arith) (omega arith))

-- `|` is at least either operand, so it is 0 only if both are.
pub bit_or-ge : (a b : ℕ) → (a ≤ bit_or a b) × (b ≤ bit_or a b)
bit_or-ge a b = bit_or-ge_below (a + b) a b (omega arith) (omega arith)

pub bit_or-zero : (a : ℕ) → bit_or a 0 ≡ a
bit_or-zero a = below a a (omega arith)
  where
    below : (n a : ℕ) → a ≤ n → bit_or a 0 ≡ a
    below zero a h = let e : a ≡ 0 = omega arith in rw e
    below (suc n) a h = omega (arith, bit_or_step a 0, below n (a / 2) (omega arith))

bit_and-zero : (a : ℕ) → bit_and a 0 ≡ 0
bit_and-zero a = below a a (omega arith)
  where
    below : (n a : ℕ) → a ≤ n → bit_and a 0 ≡ 0
    below zero a h = let e : a ≡ 0 = omega arith in rw e
    below (suc n) a h = omega (arith, bit_and_step a 0, below n (a / 2) (omega arith))

bit_and-le_below : (n a b : ℕ) → a ≤ n → bit_and a b ≤ b
bit_and-le_below zero a b h =
    let e : a ≡ 0 = omega arith in rw e (omega (arith, bit_and-bitwise 0 b))
bit_and-le_below (suc n) a b h =
    omega (arith, bit_and_step a b, bit_and-le_below n (a / 2) (b / 2) (omega arith))

pub bit_and-le : (a b : ℕ) → bit_and a b ≤ b
bit_and-le a b = bit_and-le_below a a b (omega arith)

double_pow : (q k : ℕ) → q * 2 ^ suc k ≡ 2 * (q * 2 ^ k)
double_pow q k = omega (arith, ap (λ (t : ℕ). q * t) (pow-suc 2 k))

-- `(q << k) | r` is a sum when `r` has `k` digits.
pub bit_or_shifted : (k q r : ℕ) → r < 2 ^ k → bit_or (q * 2 ^ k) r ≡ q * 2 ^ k + r
bit_or_shifted zero q r h =
    let e : r ≡ 0 = omega arith in rw e (omega (arith, bit_or-zero (q * 2 ^ 0)))
bit_or_shifted (suc k) q r h =
    let s = pow-suc 2 k in
    let d = double_pow q k in
    let half : q * 2 ^ suc k / 2 ≡ q * 2 ^ k = omega arith in
    rw (bit_or_step (q * 2 ^ suc k) r, half)
      (omega (arith, bit_or_shifted k q (r / 2) (omega arith)))

bit_and_low : (k q r : ℕ) → r < 2 ^ k → bit_and (q * 2 ^ k + r) (2 ^ k - 1) ≡ r
bit_and_low zero q r h = rw (bit_and-zero (q * 2 ^ 0 + r)) (omega arith)
bit_and_low (suc k) q r h =
    let s = pow-suc 2 k in
    let d = double_pow q k in
    let p = one-le-pow k 2 (omega arith) in
    let half : (q * 2 ^ suc k + r) / 2 ≡ q * 2 ^ k + r / 2 = omega arith in
    let ones : (2 ^ suc k - 1) / 2 ≡ 2 ^ k - 1 = omega arith in
    rw (bit_and_step (q * 2 ^ suc k + r) (2 ^ suc k - 1), half, ones)
      (omega (arith, bit_and_low k q (r / 2) (omega arith)))

-- A mask of `k` ones is the remainder by `2 ^ k`.
pub bit_and_mask : (k a : ℕ) → bit_and a (2 ^ k - 1) ≡ a % 2 ^ k
bit_and_mask k a =
    let low = bit_and_low k (a / 2 ^ k) (a % 2 ^ k) (mod-lt a (one-le-pow k 2 (omega arith))) in
    rw (div-add-mod' a (2 ^ k)) at low
