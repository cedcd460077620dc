-- ===== src/Crypto/Bytes/Integers.antt =====
-- `bigintFromBytes`, `bigintBytes` and `uint64LE` of frontend/src/client/crypto.ts against the
-- positional value of a byte string.
use mathlib.Core.List.{append-nil, append_assoc}
use native.Mathlib.Nat.{pow-succ', one-le-pow, div-div-eq-div-mul, div-eq_of_lt, div-one}
use native.Mathlib.Decide.{dec_lt}
use dawn_mesh_server.Prelude.{
  ℕ, zero, suc, bit_and, bit_or, ◌+◌, ◌*◌, ◌/◌, ◌%◌, ◌^◌, ◌≤◌, ◌<◌, ◌≡◌, refl, sym, ap, ap₂, ◌∙◌,
  arith, [], ◌∷◌, ◌++◌, ◌==◌, length, drop, set, replicate, length-append, length-set, drop-set,
  length-replicate, drop_all, All-append, ok, err, failure, if◌then◌else◌, false,
}
use dawn_mesh_server.Prelude.Bits.{bit_or_shifted, bit_and_mask}
use dawn_mesh_server.Crypto.Bytes.{
  Bytes, IsByte, AreBytes, bigint_from, bigint_from_bytes, write_down, bigint_bytes, uint64_le,
}

-- The lowest `n` base-256 digits, the highest first.
big_endian : ℕ → ℕ → Bytes
big_endian zero value = []
big_endian (suc n) value = big_endian n (value / 256) ++ (value % 256) ∷ []

length-big_endian : (n value : ℕ) → length (big_endian n value) ≡ n
unfolding big_endian
length-big_endian zero value = refl
length-big_endian (suc n) value = omega (
  arith,
  length-append (big_endian n (value / 256)) (value % 256 ∷ []),
  length-big_endian n (value / 256),
)

big_endian-AreBytes : (n value : ℕ) → AreBytes (big_endian n value)
unfolding big_endian
big_endian-AreBytes zero value = tt
big_endian-AreBytes (suc n) value =
    All-append IsByte (big_endian n (value / 256)) (value % 256 ∷ [])
      (big_endian-AreBytes n (value / 256)) (omega arith)

-- The loop writes the digits over the front of the array and leaves the rest.
write_down_lem :
    (n value : ℕ) (output : Bytes)
    → n ≤ length output
    → write_down n value output ≡ (big_endian n value ++ drop n output, value / 256 ^ n)
unfolding write_down big_endian
write_down_lem zero value output h = rw (div-one value)
write_down_lem (suc n) value output h = rw (
  write_down_lem n (value / 256) (set output n (bit_and value 255))
      (omega (arith, length-set output n (bit_and value 255))),
  drop-set n output (bit_and value 255) (omega arith),
  bit_and_mask 8 value,
  append_assoc (big_endian n (value / 256)) (value % 256 ∷ []) (drop (suc n) output),
  pow-succ' 256 n,
  div-div-eq-div-mul value 256 (256 ^ n),
)

bigint_bytes_lem :
    (n value : ℕ)
    → bigint_bytes value n ≡ (
        if value / 256 ^ n == 0
        then ok (big_endian n value)
        else err (failure "integer does not fit"))
unfolding bigint_bytes
bigint_bytes_lem n value = rw (
  write_down_lem n value (replicate n 0) (omega (arith, length-replicate n zero)),
  drop_all {A = ℕ} n (replicate n 0) (omega (arith, length-replicate n zero)),
  append-nil (big_endian n value),
)

or_byte : (acc b : ℕ) → b < 256 → bit_or (acc * 256) b ≡ acc * 256 + b
or_byte acc b h = bit_or_shifted 8 acc b h

first_byte : (b : ℕ) → b < 256 → bit_or (0 * 256) b ≡ b
first_byte b h = omega (arith, or_byte 0 b h)

bigint_from-append :
    (acc : ℕ) (xs ys : Bytes) → bigint_from acc (xs ++ ys) ≡ bigint_from (bigint_from acc xs) ys
unfolding bigint_from
bigint_from-append acc [] ys = refl
bigint_from-append acc (x ∷ xs) ys = bigint_from-append (bit_or (acc * 256) x) xs ys

bigint_from-big_endian :
    (n value : ℕ) → value < 256 ^ n → bigint_from 0 (big_endian n value) ≡ value
unfolding bigint_from big_endian
bigint_from-big_endian zero value h = omega arith
bigint_from-big_endian (suc n) value h =
    let p = pow-succ' 256 n in
    rw
      (
        bigint_from-append 0 (big_endian n (value / 256)) (value % 256 ∷ []),
        bigint_from-big_endian n (value / 256) (omega arith),
        or_byte (value / 256) (value % 256) (omega arith),
      )
      (omega arith)

-- The value of a byte string after `acc`, in positional notation.
bigint_from_positional :
    (acc : ℕ) (bytes : Bytes)
    → AreBytes bytes
    → (bigint_from acc bytes ≡ acc * 256 ^ length bytes + bigint_from 0 bytes)
      × (bigint_from 0 bytes < 256 ^ length bytes)
unfolding bigint_from
bigint_from_positional acc [] h = omega arith
bigint_from_positional acc (b ∷ bytes) h =
    let p = pow-succ' 256 (length bytes) in
    let x = bigint_from_positional (acc * 256 + b) bytes h.1 in
    let y = bigint_from_positional b bytes h.1 in
    let small : b * 256 ^ length bytes + 256 ^ length bytes ≤ 256 * 256 ^ length bytes =
      grind (arith, h.0) in
    rw (or_byte acc b h.0, first_byte b h.0) (omega (arith, ap (λ (t : ℕ). acc * t) p))

leading_le : (m a b r s : ℕ) → s < m → a * m + r ≡ b * m + s → a ≤ b
leading_le m a b r s hs e = elim (dec_lt b a) [
  | yes less ↦ let up : suc b * m ≤ a * m = grind (arith, less) in absurd (omega arith)
  | no le ↦ omega arith
]

digits_unique : (m a b r s : ℕ) → r < m → s < m → a * m + r ≡ b * m + s → (a ≡ b) × (r ≡ s)
digits_unique m a b r s hr hs e =
    let le = leading_le m a b r s hs e in
    let ge = leading_le m b a s r hr (sym e) in
    let same : a ≡ b = omega arith in (same, omega (arith, ap (λ (t : ℕ). t * m) same))

bigint_from_injective :
    (xs ys : Bytes)
    → AreBytes xs
    → AreBytes ys
    → length xs ≡ length ys
    → bigint_from 0 xs ≡ bigint_from 0 ys
    → xs ≡ ys
unfolding bigint_from
bigint_from_injective [] [] hx hy l e = refl
bigint_from_injective [] (y ∷ ys) hx hy l e = absurd (omega arith)
bigint_from_injective (x ∷ xs) [] hx hy l e = absurd (omega arith)
bigint_from_injective (x ∷ xs) (y ∷ ys) hx hy l e =
    let same_length : length xs ≡ length ys = omega arith in
    let px = bigint_from_positional x xs hx.1 in
    let py = bigint_from_positional y ys hy.1 in
    let powers = ap (λ (t : ℕ). 256 ^ t) same_length in
    let products = ap (λ (t : ℕ). y * 256 ^ t) same_length in
    let values : bigint_from x xs ≡ bigint_from y ys =
      rw (first_byte x hx.0, first_byte y hy.0) at e in
    let parts =
      digits_unique (256 ^ length xs) x y (bigint_from 0 xs) (bigint_from 0 ys) (omega arith)
        (omega arith) (omega arith) in
    ap₂ ◌∷◌ parts.0 (bigint_from_injective xs ys hx.1 hy.1 same_length parts.1)

-- A value that fits is written in exactly `n` bytes, and reading them gives it back.
pub bigint_from_bytes-bigint_bytes :
    (n value : ℕ)
    → value < 256 ^ n
    → (out : Bytes) × (bigint_bytes value n ≡ ok out)
      × (length out ≡ n)
      × AreBytes out
      × (bigint_from_bytes out ≡ value)
unfolding bigint_from_bytes
bigint_from_bytes-bigint_bytes n value h = (
  big_endian n value,
  rw (bigint_bytes_lem n value, div-eq_of_lt h),
  length-big_endian n value,
  big_endian-AreBytes n value,
  bigint_from-big_endian n value h,
)

-- Reading a byte string and writing it at its own length gives it back.
pub bigint_bytes-bigint_from_bytes :
    (bytes : Bytes)
    → AreBytes bytes
    → bigint_bytes (bigint_from_bytes bytes) (length bytes) ≡ ok bytes
unfolding bigint_from_bytes
bigint_bytes-bigint_from_bytes bytes h =
    let small = (bigint_from_positional 0 bytes h).1 in
    let n = length bytes in
    let value = bigint_from 0 bytes in
    let again =
      bigint_from_injective (big_endian n value) bytes (big_endian-AreBytes n value) h
        (length-big_endian n value) (bigint_from-big_endian n value small) in
    rw (bigint_bytes_lem n value, div-eq_of_lt small, again)

-- A value that does not fit is an error.
pub bigint_bytes_too_large :
    (n value : ℕ) → 256 ^ n ≤ value → bigint_bytes value n ≡ err (failure "integer does not fit")
bigint_bytes_too_large n value h =
    let p = one-le-pow n 256 (omega arith) in
    let big : 0 < value / 256 ^ n = grind arith in rw (bigint_bytes_lem n value, gt→== big)
  where
    gt→== : {x : ℕ} → 0 < x → (x == 0) ≡ false
    gt→== h = ground arith

-- The lowest `n` base-256 digits, the lowest first.
abbrev little_endian : ℕ → ℕ → Bytes
little_endian zero value = []
little_endian (suc n) value = value % 256 ∷ little_endian n (value / 256)

uint64_le_digits : (value : ℕ) → uint64_le value ≡ little_endian 8 value
unfolding uint64_le
uint64_le_digits value = simp (bit_and_mask 8)

little_endian_injective :
    (n a b : ℕ) → a < 256 ^ n → b < 256 ^ n → little_endian n a ≡ little_endian n b → a ≡ b
little_endian_injective zero a b ha hb e = omega arith
little_endian_injective (suc n) a b ha hb e =
    let p = pow-succ' 256 n in
    let low : a % 256 ≡ b % 256 = cc e in
    let rest : little_endian n (a / 256) ≡ little_endian n (b / 256) = cc e in
    omega (arith, little_endian_injective n (a / 256) (b / 256) (omega arith) (omega arith) rest)

pub length-uint64_le : (value : ℕ) → length (uint64_le value) ≡ 8
length-uint64_le value = rw (uint64_le_digits value)

pub uint64_le-AreBytes : (value : ℕ) → AreBytes (uint64_le value)
uint64_le-AreBytes value = rw (uint64_le_digits value) (omega arith)

-- Two lengths below 2^64 with one encoding are the same.
pub uint64_le_injective : (a b : ℕ) → a < 2 ^ 64 → b < 2 ^ 64 → uint64_le a ≡ uint64_le b → a ≡ b
uint64_le_injective a b ha hb e =
    little_endian_injective 8 a b ha hb (sym (uint64_le_digits a) ∙ e ∙ uint64_le_digits b)
