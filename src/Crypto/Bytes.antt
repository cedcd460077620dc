-- ===== src/Crypto/Bytes.antt =====
-- Byte arrays of frontend/src/client/crypto.ts: a `Uint8Array` is the list of its bytes.
pub mod Integers
pub mod Joining
pub mod Equality
mod Tests
use dawn_mesh_server.Prelude.{
  ℕ, zero, suc, ◌+◌, ◌*◌, ◌/◌, ◌<◌, bit_and, bit_or, bit_xor, Bool, false, List, [], ◌∷◌, length,
  set, replicate, All, ◌==◌, if◌then◌else◌, Result, ok, err, failure,
}

abbrev pub Bytes : Type 0
Bytes = List ℕ

abbrev pub IsByte : ℕ → Type 0
IsByte b = b < 256

abbrev pub AreBytes : Bytes → Type 0
AreBytes = All IsByte

-- The loop of `bigintFromBytes`.
pub bigint_from : ℕ → Bytes → ℕ
bigint_from value [] = value
bigint_from value (byte ∷ bytes) = bigint_from (bit_or (value * 256) byte) bytes

unfoldable pub bigint_from_bytes : Bytes → ℕ
unfolding bigint_from
bigint_from_bytes bytes = bigint_from 0 bytes

-- The loop of `bigintBytes`, downwards: `left` indices are still to be written.
pub write_down : ℕ → ℕ → Bytes → Bytes × ℕ
write_down zero remaining output = (output, remaining)
write_down (suc left) remaining output =
    write_down left (remaining / 256) (set output left (bit_and remaining 255))

unfoldable pub bigint_bytes : ℕ → ℕ → Result Bytes
unfolding write_down
bigint_bytes value length =
    let (output, remaining) = write_down length value (replicate length 0) in
    if remaining == 0 then ok output else err (failure "integer does not fit")

-- The loop of `uint64LE`, upwards from `index`.
pub write_up : ℕ → ℕ → ℕ → Bytes → Bytes
write_up zero index remaining output = output
write_up (suc left) index remaining output =
    write_up left (index + 1) (remaining / 256) (set output index (bit_and remaining 255))

unfoldable pub uint64_le : ℕ → Bytes
unfolding write_up
uint64_le value = write_up 8 0 value (replicate 8 0)

-- `output.set(values, offset)`.
unfoldable pub set_from : Bytes → ℕ → Bytes → Bytes
set_from output offset [] = output
set_from output offset (value ∷ values) = set_from (set output offset value) (offset + 1) values

pub total_length : ℕ → List Bytes → ℕ
total_length sum [] = sum
total_length sum (value ∷ arrays) = total_length (sum + length value) arrays

pub join_from : Bytes → ℕ → List Bytes → Bytes
unfolding set_from
join_from output offset [] = output
join_from output offset (value ∷ arrays) =
    join_from (set_from output offset value) (offset + length value) arrays

unfoldable pub concat : List Bytes → Bytes
unfolding total_length join_from
concat arrays = join_from (replicate (total_length 0 arrays) 0) 0 arrays

-- The loop of `timingSafeEqual` over two arrays of one length.
pub difference : ℕ → Bytes → Bytes → ℕ
difference different [] right = different
difference different (a ∷ left) [] = different
difference different (a ∷ left) (b ∷ right) = difference (bit_or different (bit_xor a b)) left right

unfoldable pub timing_safe_equal : Bytes → Bytes → Bool
unfolding difference
timing_safe_equal left right =
    if length left == length right then difference 0 left right == 0 else false
