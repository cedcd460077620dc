-- ===== src/Crypto/Bytes/Equality.antt =====
-- `timingSafeEqual` of frontend/src/client/crypto.ts decides equality.
use dawn_mesh_server.Prelude.{
  ℕ, ◌≡◌, refl, ap₂, arith, ◌↔◌, true, [], ◌∷◌, length, eq→==, bit_or, bit_xor,
}
use dawn_mesh_server.Prelude.Bits.{bit_or-ge, bit_xor_self, eq_of_bit_xor-zero}
use dawn_mesh_server.Crypto.Bytes.{Bytes, difference, timing_safe_equal}

-- The accumulated difference is 0 only if it started at 0 and every pair of bytes agreed.
difference-zero :
    (different : ℕ) (left right : Bytes)
    → length left ≡ length right
    → difference different left right ≡ 0
    → (different ≡ 0) × (left ≡ right)
unfolding difference
difference-zero different [] [] l h = (h, refl)
difference-zero different [] (b ∷ right) l h = absurd (omega arith)
difference-zero different (a ∷ left) [] l h = absurd (omega arith)
difference-zero different (a ∷ left) (b ∷ right) l h =
    let rest = difference-zero (bit_or different (bit_xor a b)) left right (omega arith) h in
    let ge = bit_or-ge different (bit_xor a b) in
    (omega arith, ap₂ ◌∷◌ (eq_of_bit_xor-zero a b (omega arith)) rest.1)

difference_self : (bytes : Bytes) → difference 0 bytes bytes ≡ 0
unfolding difference
difference_self [] = refl
difference_self (b ∷ bytes) = rw (bit_xor_self b) (difference_self bytes)

-- The answer is `true` exactly for equal arrays.
pub timing_safe_equal_iff :
    (left right : Bytes) → (timing_safe_equal left right ≡ true) ↔ (left ≡ right)
unfolding timing_safe_equal
timing_safe_equal_iff left right = (
  λ h. (difference-zero 0 left right (ground arith) (ground arith)).1,
  λ e. rw (e, difference_self right, eq→== (length right) (length right) refl),
)
