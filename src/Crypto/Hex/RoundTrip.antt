-- ===== src/Crypto/Hex/RoundTrip.antt =====
-- `toHex` and `hexBytes` invert each other.
use dawn_mesh_server.Prelude.{
  ℕ, ◌+◌, ◌*◌, ◌/◌, ◌%◌, ◌<◌, ◌≡◌, refl, ap, ap₂, arith, [], ◌∷◌, ◌++◌, some, inl, inr, Bool-cases,
  ltb, ltb→lt, true, leb, ◌&&◌, ◌||◌, Bool, ◌∙◌, ◌-◌, if◌then◌else◌,
}
use dawn_mesh_server.Crypto.Bytes.{Bytes, AreBytes}
use dawn_mesh_server.Crypto.Base64.{Text}
use dawn_mesh_server.Crypto.Hex.{
  digit_value, digit_char, parse_pair, hex_pair, hex_bytes, to_hex, second_digit,
}

digit_value-digit_char : (d : ℕ) → d < 16 → digit_value (digit_char d) ≡ some d
unfolding digit_value digit_char
digit_value-digit_char d h = ground arith

parse_digits : (d e : ℕ) → d < 16 → e < 16 → parse_pair (digit_char d) (digit_char e) ≡ d * 16 + e
unfolding parse_pair second_digit
parse_digits d e hd he = rw (digit_value-digit_char d hd, digit_value-digit_char e he, parse_pair)

hex_bytes-hex_pair :
    (byte : ℕ) (text : Text)
    → byte < 256
    → hex_bytes (hex_pair byte ++ text) ≡ byte ∷ hex_bytes text
unfolding hex_bytes hex_pair
hex_bytes-hex_pair byte text h = elim (Bool-cases (ltb byte 16)) [
  | inl small ↦
      let less = ltb→lt byte 16 small in
      rw small (ap (λ b. b ∷ hex_bytes text) (parse_digits 0 byte (omega arith) less ∙ omega arith))
  | inr large ↦ rw large (
      ap (λ b. b ∷ hex_bytes text)
        (parse_digits (byte / 16) (byte % 16) (omega arith) (omega arith) ∙ omega arith))
]

-- Every byte array is read back from its hexadecimal text.
pub hex_bytes-to_hex : (bytes : Bytes) → AreBytes bytes → hex_bytes (to_hex bytes) ≡ bytes
unfolding to_hex hex_bytes
hex_bytes-to_hex [] h = refl
hex_bytes-to_hex (byte ∷ bytes) h =
    hex_bytes-hex_pair byte (to_hex bytes) h.0 ∙ ap (◌∷◌ byte) (hex_bytes-to_hex bytes h.1)

-- A lower-case hexadecimal digit.
abbrev pub is_lower_digit : ℕ → Bool
is_lower_digit c = (leb b'0' c && leb c b'9') || (leb b'a' c && leb c b'f')

abbrev pub IsHex : Text → Type 0
IsHex [] = Unit {0}
IsHex (a ∷ []) = ⊥
IsHex (a ∷ b ∷ text) = (is_lower_digit a ≡ true) × (is_lower_digit b ≡ true) × IsHex text

lower_digit :
    (c : ℕ)
    → is_lower_digit c ≡ true
    → (d : ℕ) × (digit_value c ≡ some d) × (d < 16) × (digit_char d ≡ c)
unfolding digit_value digit_char
lower_digit c h = (if leb c b'9' then c - 48 else c - 87, ground arith, ground arith, ground arith)

hex_pair_digits :
    (d e : ℕ) → d < 16 → e < 16 → hex_pair (d * 16 + e) ≡ digit_char d ∷ digit_char e ∷ []
unfolding hex_pair digit_char
hex_pair_digits d e hd he = ground arith

hex_pair-parse_pair :
    (a b : ℕ)
    → is_lower_digit a ≡ true
    → is_lower_digit b ≡ true
    → hex_pair (parse_pair a b) ≡ a ∷ b ∷ []
unfolding parse_pair second_digit
hex_pair-parse_pair a b ha hb =
    let (d, value_d, small_d, char_d) = lower_digit a ha in
    let (e, value_e, small_e, char_e) = lower_digit b hb in
    rw (value_d, value_e, parse_pair)
      (hex_pair_digits d e small_d small_e ∙ ap₂ (λ x y. x ∷ y ∷ []) char_d char_e)

-- A lower-case text of whole pairs is what is written from its bytes.
pub to_hex-hex_bytes : (text : Text) → IsHex text → to_hex (hex_bytes text) ≡ text
unfolding to_hex hex_bytes
to_hex-hex_bytes [] h = refl
to_hex-hex_bytes (a ∷ []) h = absurd h
to_hex-hex_bytes (a ∷ b ∷ text) h = rw (hex_pair-parse_pair a b h.0 h.1, to_hex-hex_bytes text h.2)
