-- ===== src/Crypto/Scrypt/Rounds.antt =====
-- `salsa208` of frontend/src/client/crypto.ts: its words keep 32 bits.
use dawn_mesh_server.Prelude.{
  ℕ, zero, suc, ◌+◌, ◌-◌, ◌*◌, ◌/◌, ◌%◌, ◌^◌, ◌<◌, ◌≡◌, ap, ◌∙◌, arith, List, [], ◌∷◌, length,
  get_or, bit_xor, length-set, All-set,
}
use native.Mathlib.Nat.{div-le_self}
use dawn_mesh_server.Prelude.Bits.{bit_xor-lt, bit_or-lt}
use dawn_mesh_server.Crypto.Scrypt.{
  Words, Step, rotate_left, apply_step, apply_steps, apply_rounds, double_round, add_words,
  salsa208,
}
use dawn_mesh_server.Crypto.Scrypt.Words.{AreWords}

rotate_left-lt : (value count : ℕ) → value < 2 ^ 32 → rotate_left value count < 2 ^ 32
unfolding rotate_left
rotate_left-lt value count h =
    bit_or-lt 32 (value * 2 ^ count % 2 ^ 32) (value / 2 ^ (32 - count)) (omega arith)
      (omega (arith, h, div-le_self value (2 ^ (32 - count))))

get_or-lt : (x : Words) (i : ℕ) → AreWords x → get_or x i 0 < 2 ^ 32
get_or-lt [] i h = omega arith
get_or-lt (a ∷ x) zero h = h.0
get_or-lt (a ∷ x) (suc i) h = get_or-lt x i h.1

-- `n` words of 32 bits.
pub record AreBlock (n : ℕ) (x : Words) : Type 0 where
  pub size : length x ≡ n
  pub words : AreWords x

apply_step-AreBlock : (n : ℕ) (s : Step) (x : Words) → AreBlock n x → AreBlock n (apply_step s x)
unfolding apply_step
apply_step-AreBlock n s x h =
    let sum = (get_or x s.left 0 + get_or x s.right 0) % 2 ^ 32 in
    let v = bit_xor (get_or x s.target 0) (rotate_left sum s.count) in
    record {
      size = length-set x s.target v ∙ h.size;
      words =
          All-set (λ w. w < 2 ^ 32) x s.target v h.words
            (bit_xor-lt 32 (get_or x s.target 0) (rotate_left sum s.count)
              (get_or-lt x s.target h.words) (rotate_left-lt sum s.count (omega arith)));
    }

apply_steps-AreBlock :
    (n : ℕ) (steps : List Step) (x : Words) → AreBlock n x → AreBlock n (apply_steps steps x)
unfolding apply_steps
apply_steps-AreBlock n [] x h = h
apply_steps-AreBlock n (s ∷ steps) x h =
    apply_steps-AreBlock n steps (apply_step s x) (apply_step-AreBlock n s x h)

apply_rounds-AreBlock :
    (n rounds : ℕ) (x : Words) → AreBlock n x → AreBlock n (apply_rounds rounds x)
unfolding apply_rounds
apply_rounds-AreBlock n zero x h = h
apply_rounds-AreBlock n (suc rounds) x h =
    apply_rounds-AreBlock n rounds (apply_steps double_round x)
      (apply_steps-AreBlock n double_round x h)

add_words-AreBlock :
    (n : ℕ) (block x : Words) → AreBlock n block → length x ≡ n → AreBlock n (add_words block x)
unfolding add_words
add_words-AreBlock n [] x h l = h
add_words-AreBlock n (a ∷ block) [] h l = h
add_words-AreBlock zero (a ∷ block) (b ∷ x) h l = absurd (omega (arith, h.size))
add_words-AreBlock (suc n) (a ∷ block) (b ∷ x) h l =
    let rest =
      add_words-AreBlock n block x (record { size = omega (arith, h.size); words = h.words.1 })
        (omega arith) in
    record { size = ap suc rest.size; words = (omega arith, rest.words) }

-- Of a block of 32-bit words `salsa208` gives a block of as many 32-bit words.
pub salsa208-AreBlock : (n : ℕ) (block : Words) → AreBlock n block → AreBlock n (salsa208 block)
unfolding salsa208
salsa208-AreBlock n block h =
    add_words-AreBlock n block (apply_rounds 4 block) h (apply_rounds-AreBlock n 4 block h).size
