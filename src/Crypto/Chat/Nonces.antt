-- ===== src/Crypto/Chat/Nonces.antt =====
-- The nonces of `ChatCipher.encrypt`: one for each packet under a key.
use mathlib.Core.List.{flatten, append-nil}
use dawn_mesh_server.Prelude.{
  ℕ, ◌+◌, ◌/◌, ◌%◌, ◌≤◌, ◌<◌, ◌^◌, ◌≡◌, refl, sym, ◌∙◌, ◌≢◌, arith, List, [], ◌∷◌, ◌++◌, length,
  take, drop_all, replicate, take_append, length-append, ok, append_split,
}
use dawn_mesh_server.Crypto.Bytes.{Bytes, set_from}
use dawn_mesh_server.Crypto.Bytes.Joining.{set_from_lem, concat-flatten}
use dawn_mesh_server.Crypto.Platform.{Subtle}
use dawn_mesh_server.Crypto.Chat.{ChatCipher, set_uint32, nonce_of, encrypt, aes_encrypt}

abbrev pub big_endian32 : ℕ → Bytes
big_endian32 v = v / 16777216 % 256 ∷ v / 65536 % 256 ∷ v / 256 % 256 ∷ (v % 256) ∷ []

-- The nonce is the prefix and the counter, the highest byte first.
pub nonce_of_lem :
    (prefix : Bytes) (counter : ℕ)
    → length prefix ≡ 8
    → nonce_of prefix counter ≡ prefix ++ big_endian32 counter
unfolding nonce_of set_uint32
nonce_of_lem prefix counter h =
    let first : set_from (replicate 12 0) 0 prefix ≡ prefix ++ 0 ∷ 0 ∷ 0 ∷ 0 ∷ [] =
      rw (set_from_lem (replicate 12 0) 0 prefix (omega arith), h) in
    let long : length (prefix ++ 0 ∷ 0 ∷ 0 ∷ 0 ∷ []) ≡ 12 =
      omega (arith, length-append prefix (0 ∷ 0 ∷ 0 ∷ 0 ∷ [])) in
    rw (
      first,
      set_from_lem (prefix ++ 0 ∷ 0 ∷ 0 ∷ 0 ∷ []) 8 (big_endian32 counter) (omega arith),
      take_append 8 prefix (0 ∷ 0 ∷ 0 ∷ 0 ∷ []) h,
      drop_all 12 (prefix ++ 0 ∷ 0 ∷ 0 ∷ 0 ∷ []) (omega arith),
    )

big_endian32_injective :
    (a b : ℕ) → a < 2 ^ 32 → b < 2 ^ 32 → big_endian32 a ≡ big_endian32 b → a ≡ b
big_endian32_injective a b ha hb e = ground arith

pub length-nonce_of :
    (prefix : Bytes) (counter : ℕ) → length prefix ≡ 8 → length (nonce_of prefix counter) ≡ 12
length-nonce_of prefix counter h =
    rw (nonce_of_lem prefix counter h) (omega (arith, length-append prefix (big_endian32 counter)))

pub nonce_of_injective :
    (prefix : Bytes) (a b : ℕ)
    → length prefix ≡ 8
    → a < 2 ^ 32
    → b < 2 ^ 32
    → nonce_of prefix a ≡ nonce_of prefix b
    → a ≡ b
nonce_of_injective prefix a b h ha hb e =
    let whole = sym (nonce_of_lem prefix a h) ∙ e ∙ nonce_of_lem prefix b h in
    big_endian32_injective a b ha hb (append_split prefix prefix refl whole).1

module _ (subtle : Subtle) where
  -- A packet is its nonce and the sealed text.
  pub aes_encrypt_lem :
      (key plaintext aad nonce : Bytes)
      → aes_encrypt subtle key plaintext aad nonce ≡ nonce ++ subtle.seal key nonce aad plaintext
  unfolding aes_encrypt
  aes_encrypt_lem key plaintext aad nonce =
      concat-flatten (nonce ∷ subtle.seal key nonce aad plaintext ∷ [])
      ∙ unfold flatten in rw (append-nil (subtle.seal key nonce aad plaintext))

  -- Texts with their associated data, encrypted one after the other.
  unfoldable pub encrypt_all : ChatCipher → List (Bytes × Bytes) → ChatCipher
  encrypt_all c [] = c
  encrypt_all c ((text, aad) ∷ texts) = encrypt_all (encrypt subtle c text aad).0 texts

  encrypt_all-grows :
      (c : ChatCipher) (texts : List (Bytes × Bytes))
      → (c.counter ≤ (encrypt_all c texts).counter) × ((encrypt_all c texts).prefix ≡ c.prefix)
  unfolding encrypt_all encrypt
  encrypt_all-grows c [] = (omega arith, refl)
  encrypt_all-grows c ((text, aad) ∷ texts) =
      ground (arith, encrypt_all-grows (encrypt subtle c text aad).0 texts)

  pub encrypted :
      (c : ChatCipher) (text aad : Bytes) {c' : ChatCipher} {packet : Bytes}
      → encrypt subtle c text aad ≡ (c', ok packet)
      → (c.counter < 2 ^ 32)
        × (c' ≡ record c { counter = c.counter + 1 })
        × (packet ≡ aes_encrypt subtle c.key text aad (nonce_of c.prefix c.counter))
  unfolding encrypt
  encrypted c text aad e = ground arith

  take-packet :
      (key text aad nonce : Bytes)
      → length nonce ≡ 12
      → take 12 (aes_encrypt subtle key text aad nonce) ≡ nonce
  take-packet key text aad nonce h =
      rw (aes_encrypt_lem key text aad nonce)
        (take_append 12 nonce (subtle.seal key nonce aad text) h)

  -- Two packets that one cipher with a prefix of 8 bytes encrypts never have the same nonce, whatever
  -- it encrypts between them.
  pub encrypt_nonce_unique :
      (c c' c'' : ChatCipher) (text aad packet : Bytes)
      → length c.prefix ≡ 8
      → encrypt subtle c text aad ≡ (c', ok packet)
      → (between : List (Bytes × Bytes)) (text' aad' packet' : Bytes)
      → encrypt subtle (encrypt_all c' between) text' aad' ≡ (c'', ok packet')
      → take 12 packet ≢ take 12 packet'
  encrypt_nonce_unique c c' c'' text aad packet h e between text' aad' packet' e' same =
      let first = encrypted c text aad e in
      let d = encrypt_all c' between in
      let grown = encrypt_all-grows c' between in
      let second = encrypted d text' aad' e' in
      let counters : c'.counter ≡ c.counter + 1 = rw first.1 in
      let prefixes : d.prefix ≡ c.prefix = grown.1 ∙ rw first.1 in
      let left : take 12 packet ≡ nonce_of c.prefix c.counter = rw first.2 (
        take-packet c.key text aad (nonce_of c.prefix c.counter)
          (length-nonce_of c.prefix c.counter h)) in
      let right : take 12 packet' ≡ nonce_of c.prefix d.counter =
        rw (second.2, prefixes)
          (take-packet d.key text' aad' (nonce_of c.prefix d.counter)
            (length-nonce_of c.prefix d.counter h)) in
      let equal =
        nonce_of_injective c.prefix c.counter d.counter h first.0 second.0
          (sym left ∙ same ∙ right) in
      absurd (omega arith)
