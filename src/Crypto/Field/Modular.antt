-- ===== src/Crypto/Field/Modular.antt =====
-- Congruence, and that `mod_by` gives the least residue of any integer.
use native.Mathlib.Nat.{mod-lt, div-add-mod', add-mul-mod_self_right}
use dawn_mesh_server.Prelude.{
  ℕ, suc, ◌+◌, ◌-◌, ◌*◌, ◌/◌, ◌%◌, ◌<◌, ◌≡◌, sym, ap, ◌∙◌, arith, ◌⊎◌, inl, inr, Bool-cases, leb,
}
use dawn_mesh_server.Prelude.Int.{ℤ, pos, negsuc, pos_part, neg_part, rem_ℤ}
use dawn_mesh_server.Crypto.Field.{mod_by, lift_negative}

-- `a` and `b` differ by a multiple of `m`.
pub record Congruent (m a b : ℕ) : Type 0 where
  pub left : ℕ
  pub right : ℕ
  pub balance : a + left * m ≡ b + right * m

pub Congruent-mod : (m a b : ℕ) → Congruent m a b → a % m ≡ b % m
Congruent-mod m a b c =
    sym (add-mul-mod_self_right a c.left m)
    ∙ ap (λ t. t % m) c.balance
    ∙ add-mul-mod_self_right b c.right m

pub mod-Congruent : (m a : ℕ) → Congruent m (a % m) a
mod-Congruent m a = record { left = a / m; right = 0; balance = omega (arith, div-add-mod' a m) }

pub Congruent-mul : (m a b k : ℕ) → Congruent m a b → Congruent m (a * k) (b * k)
Congruent-mul m a b k c = record {
  left = c.left * k;
  right = c.right * k;
  balance = omega (arith, ap (λ (t : ℕ). t * k) c.balance);
}

pub mod-mul : (m a b : ℕ) → (a % m * b) % m ≡ (a * b) % m
mod-mul m a b =
    Congruent-mod m (a % m * b) (a * b) (Congruent-mul m (a % m) a b (mod-Congruent m a))

mod_by-negsuc :
    (n m : ℕ)
    → 0 < m
    → ((mod_by (negsuc n) m ≡ 0) × (suc n % m ≡ 0))
      ⊎ ((mod_by (negsuc n) m ≡ m - suc n % m) × (0 < suc n % m))
unfolding mod_by lift_negative rem_ℤ
mod_by-negsuc n m h = elim (Bool-cases (leb (suc n % m) 0)) [
  | inl zero_rest ↦ inl (rw zero_rest (omega arith), ground arith)
  | inr some_rest ↦ inr (rw some_rest (ground arith), ground arith)
]

-- For a positive modulus `mod` gives a number below it that differs from the integer by a multiple of
-- it, for negative integers too.
pub mod_by_lem :
    (value : ℤ) (m : ℕ)
    → 0 < m
    → (mod_by value m < m) × Congruent m (mod_by value m + neg_part value) (pos_part value)
mod_by_lem (pos n) m h =
    unfold mod_by lift_negative rem_ℤ in
    (mod-lt n h, record { left = n / m; right = 0; balance = omega (arith, div-add-mod' n m) })
mod_by_lem (negsuc n) m h = elim (mod_by-negsuc n m h) [
  | inl (e, rest) ↦ (
    omega arith,
    record { left = 0; right = suc n / m; balance = omega (arith, div-add-mod' (suc n) m) },
  )
  | inr (e, rest) ↦ (
    omega (arith, mod-lt (suc n) h),
    record {
      left = 0;
      right = suc n / m + 1;
      balance = omega (arith, div-add-mod' (suc n) m, mod-lt (suc n) h);
    },
  )
]
