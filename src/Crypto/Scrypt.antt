-- ===== src/Crypto/Scrypt.antt =====
-- scrypt in frontend/src/client/crypto.ts: `rotateLeft`, `salsa208`, `blockMix`, the little-endian
-- words, `pbkdf2OneIteration`, `scrypt`, `deriveInviteScalar` and `internetInviteCredentials`.
pub mod Rounds
pub mod Words
pub mod Salsa
pub mod Output
mod Tests
use Prim.Native.Char.{code}
use dawn_mesh_server.Prelude.{
  ℕ, zero, suc, ◌+◌, ◌-◌, ◌*◌, ◌/◌, ◌%◌, ◌^◌, min, bit_and, bit_or, bit_xor, Bool, true, false,
  ◌&&◌, ◌||◌, not, List, [], ◌∷◌, ◌++◌, length, get_or, set, take, drop, replicate, ltb, leb, ◌==◌,
  if◌then◌else◌, Result, ok, err, Failure, failure, ◌>>=◌,
}
use dawn_mesh_server.Crypto.Bytes.{Bytes, bigint_from_bytes, set_from, concat}
use dawn_mesh_server.Crypto.Base64.{Text, base64}
use dawn_mesh_server.Crypto.Platform.{Subtle}
use dawn_mesh_server.Crypto.Chat.{set_uint32}
use dawn_mesh_server.Crypto.Spake2.{ascii}

-- A `Uint32Array`.
abbrev pub Words : Type 0
Words = List ℕ

unfoldable pub rotate_left : ℕ → ℕ → ℕ
rotate_left value count = bit_or (value * 2 ^ count % 2 ^ 32) (value / 2 ^ (32 - count))

-- `x[target] ^= rotateLeft((x[left] + x[right]) >>> 0, count)`.
pub record Step : Type 0 where
  pub target : ℕ
  pub left : ℕ
  pub right : ℕ
  pub count : ℕ

unfoldable pub apply_step : Step → Words → Words
apply_step s x = set x s.target (
    bit_xor (get_or x s.target 0)
      (rotate_left ((get_or x s.left 0 + get_or x s.right 0) % 2 ^ 32) s.count))

abbrev step : ℕ → ℕ → ℕ → ℕ → Step
step target left right count = record { target = target; left = left; right = right; count = count }

-- The 32 statements of a double round, in their order.
abbrev pub double_round : List Step
double_round =
    step 4 0 12 7
    ∷ step 8 4 0 9
    ∷ step 12 8 4 13
    ∷ step 0 12 8 18
    ∷ step 9 5 1 7
    ∷ step 13 9 5 9
    ∷ step 1 13 9 13
    ∷ step 5 1 13 18
    ∷ step 14 10 6 7
    ∷ step 2 14 10 9
    ∷ step 6 2 14 13
    ∷ step 10 6 2 18
    ∷ step 3 15 11 7
    ∷ step 7 3 15 9
    ∷ step 11 7 3 13
    ∷ step 15 11 7 18
    ∷ step 1 0 3 7
    ∷ step 2 1 0 9
    ∷ step 3 2 1 13
    ∷ step 0 3 2 18
    ∷ step 6 5 4 7
    ∷ step 7 6 5 9
    ∷ step 4 7 6 13
    ∷ step 5 4 7 18
    ∷ step 11 10 9 7
    ∷ step 8 11 10 9
    ∷ step 9 8 11 13
    ∷ step 10 9 8 18
    ∷ step 12 15 14 7
    ∷ step 13 12 15 9
    ∷ step 14 13 12 13
    ∷ step 15 14 13 18
    ∷ []

unfoldable pub apply_steps : List Step → Words → Words
apply_steps [] x = x
apply_steps (s ∷ steps) x = apply_steps steps (apply_step s x)

-- `left` double rounds; `round` grows by 2 up to 8.
unfoldable pub apply_rounds : ℕ → Words → Words
apply_rounds zero x = x
apply_rounds (suc left) x = apply_rounds left (apply_steps double_round x)

-- `block[index] = (block[index] + x[index]) >>> 0`, over arrays of one length.
unfoldable pub add_words : Words → Words → Words
add_words [] x = []
add_words (a ∷ block) [] = a ∷ block
add_words (a ∷ block) (b ∷ x) = ((a + b) % 2 ^ 32) ∷ add_words block x

unfoldable pub salsa208 : Words → Words
salsa208 block = add_words block (apply_rounds 4 block)

-- `x[word] ^= input[offset + word]` for each word of `x`.
unfoldable pub xor_words : Words → Words → Words
xor_words [] input = []
xor_words (a ∷ x) [] = a ∷ x
xor_words (a ∷ x) (b ∷ input) = bit_xor a b ∷ xor_words x input

-- The first loop of `blockMix`.
unfoldable pub mix_blocks : ℕ → ℕ → Words → Words → Words → Words
mix_blocks zero block input x y = y
mix_blocks (suc left) block input x y =
    let mixed = salsa208 (xor_words x (drop (block * 16) input)) in
    mix_blocks left (block + 1) input mixed (set_from y (block * 16) mixed)

-- The second and the third loop: every other block of `y`, from `first` words on.
unfoldable pub copy_blocks : ℕ → ℕ → ℕ → ℕ → Words → Words → Words
copy_blocks zero block first to y output = output
copy_blocks (suc left) block first to y output =
    copy_blocks left (block + 1) first to y
      (set_from output ((block + to) * 16) (take 16 (drop (block * 32 + first) y)))

unfoldable pub block_mix : Words → ℕ → Words
block_mix input r =
    let y =
      mix_blocks (2 * r) 0 input (take 16 (drop ((2 * r - 1) * 16) input))
        (replicate (length input) 0) in
    copy_blocks r 0 16 r y (copy_blocks r 0 0 0 y (replicate (length input) 0))

-- `view.getUint32(index * 4, true)` for each word.
unfoldable pub bytes_to_little_words : Bytes → Words
bytes_to_little_words (a ∷ b ∷ c ∷ d ∷ bytes) =
    (a + b * 256 + c * 65536 + d * 16777216) ∷ bytes_to_little_words bytes
bytes_to_little_words _ = []

unfoldable pub little_words_to_bytes : Words → Bytes
little_words_to_bytes [] = []
little_words_to_bytes (w ∷ words) =
    (w % 256)
    ∷ (w / 256 % 256)
    ∷ (w / 65536 % 256)
    ∷ (w / 16777216 % 256)
    ∷ little_words_to_bytes words

module _ (subtle : Subtle) where
  -- The loop of `pbkdf2OneIteration`, from `block`.
  unfoldable pub pbkdf2_blocks : ℕ → ℕ → Bytes → Bytes → ℕ → Bytes → Bytes
  pbkdf2_blocks zero block password salt size output = output
  pbkdf2_blocks (suc left) block password salt size output =
      let digest = subtle.sign password (concat (salt ∷ set_uint32 (replicate 4 0) 0 block ∷ [])) in
      pbkdf2_blocks left (block + 1) password salt size
        (set_from output ((block - 1) * 32) (take (min 32 (size - (block - 1) * 32)) digest))

  unfoldable pub pbkdf2_one_iteration : Bytes → Bytes → ℕ → Bytes
  pbkdf2_one_iteration password salt size =
      pbkdf2_blocks ((size + 31) / 32) 1 password salt size (replicate size 0)

-- The first loop of `scrypt`: the memory is filled.
unfoldable pub fill_memory : ℕ → ℕ → ℕ → Words → Words → Words × Words
fill_memory zero index r x memory = (x, memory)
fill_memory (suc left) index r x memory =
    fill_memory left (index + 1) r (block_mix x r) (set_from memory (index * (32 * r)) x)

-- The block of the memory that `x` selects.
unfoldable pub selected_block : ℕ → ℕ → Words → ℕ
selected_block n r x = bit_and (get_or x ((2 * r - 1) * 16) 0) (n - 1)

-- The second loop.
unfoldable pub read_memory : ℕ → ℕ → ℕ → Words → Words → Words
read_memory zero n r memory x = x
read_memory (suc left) n r memory x =
    let offset = selected_block n r x * (32 * r) in
    read_memory left n r memory (block_mix (xor_words x (drop offset memory)) r)

unfoldable pub are_unsupported : ℕ → ℕ → Bool
are_unsupported n p = not (bit_and n (n - 1) == 0) || leb n 1 || not (p == 1)

module _ (subtle : Subtle) where
  unfoldable pub scrypt : Bytes → Bytes → ℕ → ℕ → ℕ → ℕ → Result Bytes
  scrypt password salt n r p size =
      if are_unsupported n p
      then err (failure "unsupported scrypt parameters")
      else let initial = pbkdf2_one_iteration subtle password salt (p * 128 * r) in
        let filled =
          fill_memory n 0 r (bytes_to_little_words initial) (replicate (n * (32 * r)) 0) in
        let x = read_memory n n r filled.1 filled.0 in
        ok (pbkdf2_one_iteration subtle password (little_words_to_bytes x) size)

abbrev pub is_digit : ℕ → Bool
is_digit x = leb 48 x && leb x 57

-- `/^\d{4}$/`.
unfoldable pub is_code : Text → Bool
is_code (a ∷ b ∷ c ∷ d ∷ []) = is_digit a && is_digit b && is_digit c && is_digit d
is_code _ = false

-- `请输入 4 位数字邀请码`.
pub invite_error : Failure
invite_error = failure "请输入 4 位数字邀请码"

pub record Credentials : Type 0 where
  pub credential : Text
  pub wrapping_key : Bytes
  pub aad : Bytes

module _ (subtle : Subtle) where
  -- The UTF-8 bytes of four digits are their codes.
  unfoldable pub derive_invite_scalar : Text → Result ℕ
  derive_invite_scalar text =
      if is_code text
      then (scrypt subtle text (ascii "DawnMesh SPAKE2 PIN v2") 16384 8 1 40 >>= λ bytes.
          ok (bigint_from_bytes bytes))
      else err invite_error

  unfoldable pub internet_invite_credentials : Text → Bytes → Result Credentials
  internet_invite_credentials text salt =
      if not (is_code text)
      then err invite_error
      else if not (length salt == 16)
      then err (failure "请升级服务端并重新创建房间")
      else let aad = concat (ascii "DawnMesh internet invite v2" ∷ salt ∷ []) in
        scrypt subtle text aad 16384 8 1 64 >>= λ keys.
        ok (record { credential = base64 (take 32 keys); wrapping_key = drop 32 keys; aad = aad })
