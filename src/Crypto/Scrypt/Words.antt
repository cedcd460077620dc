-- ===== src/Crypto/Scrypt/Words.antt =====
-- The words of frontend/src/client/crypto.ts and their little-endian bytes.
use dawn_mesh_server.Prelude.{◌^◌, ◌<◌, ◌≡◌, refl, ap₂, arith, [], ◌∷◌, All}
use dawn_mesh_server.Crypto.Bytes.{Bytes, AreBytes}
use dawn_mesh_server.Crypto.Scrypt.{Words, bytes_to_little_words, little_words_to_bytes}

abbrev pub AreWords : Words → Type 0
AreWords = All (λ w. w < 2 ^ 32)

-- Words of 32 bits are read back from their bytes.
pub bytes_to_little_words-little_words_to_bytes :
    (words : Words) → AreWords words → bytes_to_little_words (little_words_to_bytes words) ≡ words
unfolding bytes_to_little_words little_words_to_bytes
bytes_to_little_words-little_words_to_bytes [] h = refl
bytes_to_little_words-little_words_to_bytes (w ∷ words) h =
    ap₂ ◌∷◌ (omega (arith, h.0)) (bytes_to_little_words-little_words_to_bytes words h.1)

-- Of bytes, whole words are read, each of 32 bits.
pub bytes_to_little_words-AreWords :
    (bytes : Bytes) → AreBytes bytes → AreWords (bytes_to_little_words bytes)
unfolding bytes_to_little_words
bytes_to_little_words-AreWords [] h = tt
bytes_to_little_words-AreWords (a ∷ []) h = tt
bytes_to_little_words-AreWords (a ∷ b ∷ []) h = tt
bytes_to_little_words-AreWords (a ∷ b ∷ c ∷ []) h = tt
bytes_to_little_words-AreWords (a ∷ b ∷ c ∷ d ∷ bytes) (ha, (hb, (hc, (hd, h)))) =
    (omega arith, bytes_to_little_words-AreWords bytes h)

little_words_to_bytes-AreBytes : (words : Words) → AreBytes (little_words_to_bytes words)
unfolding little_words_to_bytes
little_words_to_bytes-AreBytes [] = tt
little_words_to_bytes-AreBytes (w ∷ words) =
    (omega arith, (omega arith, (omega arith, (omega arith, little_words_to_bytes-AreBytes words))))
