-- ===== src/Crypto/Scrypt/Salsa.antt =====
-- `salsa208` of frontend/src/client/crypto.ts against Salsa20 as its specification describes it: by
-- quarter rounds of the columns and of the rows.
use dawn_mesh_server.Prelude.{
  ℕ, zero, suc, ◌+◌, ◌-◌, ◌*◌, ◌/◌, ◌%◌, ◌^◌, ◌<◌, ◌≡◌, refl, ap, subst, ◌∙◌, arith, List, [], ◌∷◌,
  length, get_or, drop, bit_xor, bit_or, length-set,
}
use dawn_mesh_server.Prelude.Bits.{bit_or_shifted}
use dawn_mesh_server.Crypto.Scrypt.{
  Words, Step, rotate_left, apply_step, apply_steps, apply_rounds, double_round, add_words,
  salsa208,
}

-- The upper `count` of 32 bits come to the bottom, and the others move up.
pub rotated : ℕ → ℕ → ℕ
rotated w count = w % 2 ^ (32 - count) * 2 ^ count + w / 2 ^ (32 - count)

pub record Quarter : Type 0 where
  pub a : ℕ
  pub b : ℕ
  pub c : ℕ
  pub d : ℕ

-- The rounds over a rotation of 32-bit words.
module _ (rotate : ℕ → ℕ → ℕ) where
  pub quarter_round : ℕ → ℕ → ℕ → ℕ → Quarter
  quarter_round a b c d =
      let b = bit_xor b (rotate ((a + d) % 2 ^ 32) 7) in
      let c = bit_xor c (rotate ((b + a) % 2 ^ 32) 9) in
      let d = bit_xor d (rotate ((c + b) % 2 ^ 32) 13) in
      let a = bit_xor a (rotate ((d + c) % 2 ^ 32) 18) in record { a = a; b = b; c = c; d = d }

  -- Each column from the diagonal down.
  pub column_round : Words → Words
  column_round
        (x0 ∷ x1 ∷ x2 ∷ x3 ∷ x4 ∷ x5 ∷ x6 ∷ x7 ∷ x8 ∷ x9 ∷ x10 ∷ x11 ∷ x12 ∷ x13 ∷ x14 ∷ x15 ∷ []) =
      let q0 = quarter_round x0 x4 x8 x12 in
      let q1 = quarter_round x5 x9 x13 x1 in
      let q2 = quarter_round x10 x14 x2 x6 in
      let q3 = quarter_round x15 x3 x7 x11 in
      q0.a ∷ q1.d ∷ q2.c ∷ q3.b ∷ q0.b ∷ q1.a ∷ q2.d ∷ q3.c ∷ q0.c ∷ q1.b ∷ q2.a ∷ q3.d ∷ q0.d
      ∷ q1.c ∷ q2.b ∷ q3.a ∷ []
  column_round x = x

  -- Each row from the diagonal on.
  pub row_round : Words → Words
  row_round
        (x0 ∷ x1 ∷ x2 ∷ x3 ∷ x4 ∷ x5 ∷ x6 ∷ x7 ∷ x8 ∷ x9 ∷ x10 ∷ x11 ∷ x12 ∷ x13 ∷ x14 ∷ x15 ∷ []) =
      let q0 = quarter_round x0 x1 x2 x3 in
      let q1 = quarter_round x5 x6 x7 x4 in
      let q2 = quarter_round x10 x11 x8 x9 in
      let q3 = quarter_round x15 x12 x13 x14 in
      q0.a ∷ q0.b ∷ q0.c ∷ q0.d ∷ q1.d ∷ q1.a ∷ q1.b ∷ q1.c ∷ q2.c ∷ q2.d ∷ q2.a ∷ q2.b ∷ q3.b
      ∷ q3.c ∷ q3.d ∷ q3.a ∷ []
  row_round x = x

  pub salsa_rounds : ℕ → Words → Words
  salsa_rounds zero x = x
  salsa_rounds (suc n) x = salsa_rounds n (row_round (column_round x))

double_round_lem :
    (x0 x1 x2 x3 x4 x5 x6 x7 x8 x9 x10 x11 x12 x13 x14 x15 : ℕ)
    → apply_steps double_round
        (x0 ∷ x1 ∷ x2 ∷ x3 ∷ x4 ∷ x5 ∷ x6 ∷ x7 ∷ x8 ∷ x9 ∷ x10 ∷ x11 ∷ x12 ∷ x13 ∷ x14 ∷ x15 ∷ [])
      ≡ row_round rotate_left (
          column_round rotate_left (
            x0 ∷ x1 ∷ x2 ∷ x3 ∷ x4 ∷ x5 ∷ x6 ∷ x7 ∷ x8 ∷ x9 ∷ x10 ∷ x11 ∷ x12 ∷ x13 ∷ x14 ∷ x15
            ∷ []))
unfolding apply_steps apply_step row_round column_round quarter_round
double_round_lem x0 x1 x2 x3 x4 x5 x6 x7 x8 x9 x10 x11 x12 x13 x14 x15 = refl

rotate_left_lem :
    (count w : ℕ)
    → w * 2 ^ count % 2 ^ 32 ≡ w % 2 ^ (32 - count) * 2 ^ count
    → w / 2 ^ (32 - count) < 2 ^ count
    → rotate_left w count ≡ rotated w count
unfolding rotate_left rotated
rotate_left_lem count w moved fits =
    ap (λ high. bit_or high (w / 2 ^ (32 - count))) moved
    ∙ bit_or_shifted count (w % 2 ^ (32 - count)) (w / 2 ^ (32 - count)) fits

-- The rotations of a quarter round.
rotate_7 : (w : ℕ) → rotate_left (w % 2 ^ 32) 7 ≡ rotated (w % 2 ^ 32) 7
rotate_7 w = rotate_left_lem 7 (w % 2 ^ 32) (omega arith) (omega arith)

rotate_9 : (w : ℕ) → rotate_left (w % 2 ^ 32) 9 ≡ rotated (w % 2 ^ 32) 9
rotate_9 w = rotate_left_lem 9 (w % 2 ^ 32) (omega arith) (omega arith)

rotate_13 : (w : ℕ) → rotate_left (w % 2 ^ 32) 13 ≡ rotated (w % 2 ^ 32) 13
rotate_13 w = rotate_left_lem 13 (w % 2 ^ 32) (omega arith) (omega arith)

rotate_18 : (w : ℕ) → rotate_left (w % 2 ^ 32) 18 ≡ rotated (w % 2 ^ 32) 18
rotate_18 w = rotate_left_lem 18 (w % 2 ^ 32) (omega arith) (omega arith)

quarter_lem : (a b c d : ℕ) → quarter_round rotate_left a b c d ≡ quarter_round rotated a b c d
unfolding quarter_round
quarter_lem a b c d = simp (rotate_7, rotate_9, rotate_13, rotate_18)

rounds_lem :
    (x0 x1 x2 x3 x4 x5 x6 x7 x8 x9 x10 x11 x12 x13 x14 x15 : ℕ)
    → row_round rotate_left (
        column_round rotate_left (
          x0 ∷ x1 ∷ x2 ∷ x3 ∷ x4 ∷ x5 ∷ x6 ∷ x7 ∷ x8 ∷ x9 ∷ x10 ∷ x11 ∷ x12 ∷ x13 ∷ x14 ∷ x15 ∷ []))
      ≡ row_round rotated (
          column_round rotated (
            x0 ∷ x1 ∷ x2 ∷ x3 ∷ x4 ∷ x5 ∷ x6 ∷ x7 ∷ x8 ∷ x9 ∷ x10 ∷ x11 ∷ x12 ∷ x13 ∷ x14 ∷ x15
            ∷ []))
unfolding row_round column_round
rounds_lem x0 x1 x2 x3 x4 x5 x6 x7 x8 x9 x10 x11 x12 x13 x14 x15 = simp (quarter_lem)

-- A list of `n` words is that of its words.
reads : ℕ → Words → Words
reads zero x = []
reads (suc n) x = get_or x 0 0 ∷ reads n (drop 1 x)

reads_lem : (n : ℕ) (x : Words) → length x ≡ n → reads n x ≡ x
unfolding reads
reads_lem zero [] h = refl
reads_lem zero (a ∷ x) h = absurd (omega arith)
reads_lem (suc n) [] h = absurd (omega arith)
reads_lem (suc n) (a ∷ x) h = ap (λ y. a ∷ y) (reads_lem n x (omega arith))

double_round-lem :
    (x : Words)
    → length x ≡ 16
    → apply_steps double_round x ≡ row_round rotated (column_round rotated x)
unfolding reads
double_round-lem x h =
    subst (λ y. apply_steps double_round y ≡ row_round rotated (column_round rotated y))
      (reads_lem 16 x h)
      (double_round_lem _ _ _ _ _ _ _ _ _ _ _ _ _ _ _ _
        ∙ rounds_lem _ _ _ _ _ _ _ _ _ _ _ _ _ _ _ _)

length-apply_steps : (steps : List Step) (x : Words) → length (apply_steps steps x) ≡ length x
unfolding apply_steps apply_step
length-apply_steps [] x = refl
length-apply_steps (s ∷ steps) x =
    length-apply_steps steps (apply_step s x) ∙ length-set x s.target _

apply_rounds_lem : (n : ℕ) (x : Words) → length x ≡ 16 → apply_rounds n x ≡ salsa_rounds rotated n x
unfolding apply_rounds salsa_rounds
apply_rounds_lem zero x h = refl
apply_rounds_lem (suc n) x h =
    apply_rounds_lem n (apply_steps double_round x) (length-apply_steps double_round x ∙ h)
    ∙ ap (salsa_rounds rotated n) (double_round-lem x h)

length-apply_rounds : (n : ℕ) (x : Words) → length (apply_rounds n x) ≡ length x
unfolding apply_rounds
length-apply_rounds zero x = refl
length-apply_rounds (suc n) x =
    length-apply_rounds n (apply_steps double_round x) ∙ length-apply_steps double_round x

get_or-add_words :
    (i : ℕ) (block x : Words)
    → i < length block
    → length x ≡ length block
    → get_or (add_words block x) i 0 ≡ (get_or block i 0 + get_or x i 0) % 2 ^ 32
unfolding add_words
get_or-add_words i [] x inside same = absurd (omega arith)
get_or-add_words i (a ∷ block) [] inside same = absurd (omega arith)
get_or-add_words zero (a ∷ block) (b ∷ x) inside same = refl
get_or-add_words (suc i) (a ∷ block) (b ∷ x) inside same =
    get_or-add_words i block x (omega arith) (omega arith)

-- `salsa208` of 16 words adds to each of them, modulo 2^32, the word that four double rounds of
-- Salsa20 make of it: each is a round of the four columns and one of the four rows, by quarter rounds
-- with rotations by 7, 9, 13 and 18 of words of 32 bits.
pub salsa208_lem :
    (block : Words) (i : ℕ)
    → length block ≡ 16
    → i < 16
    → get_or (salsa208 block) i 0
      ≡ (get_or block i 0 + get_or (salsa_rounds rotated 4 block) i 0) % 2 ^ 32
unfolding salsa208
salsa208_lem block i h inside =
    get_or-add_words i block (apply_rounds 4 block) (omega arith) (length-apply_rounds 4 block)
    ∙ ap (λ x. (get_or block i 0 + get_or x i 0) % 2 ^ 32) (apply_rounds_lem 4 block h)
