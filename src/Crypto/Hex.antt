-- ===== src/Crypto/Hex.antt =====
-- `hexBytes` and `toHex` of frontend/src/client/crypto.ts; a text is the list of its code units.
mod Tests
pub mod RoundTrip
use dawn_mesh_server.Prelude.{
  ℕ, zero, suc, ◌+◌, ◌-◌, ◌*◌, ◌/◌, ◌%◌, Bool, ◌&&◌, ◌||◌, List, [], ◌∷◌, ◌++◌, Option, none, some,
  ltb, leb, ◌==◌, if◌then◌else◌,
}
use dawn_mesh_server.Crypto.Bytes.{Bytes}
use dawn_mesh_server.Crypto.Base64.{Text}

unfoldable pub digit_value : ℕ → Option ℕ
digit_value c =
    if leb b'0' c && leb c b'9'
    then some (c - b'0')
    else if leb b'a' c && leb c b'f'
    then some (c - b'a' + 10)
    else if leb b'A' c && leb c b'F'
    then some (c - b'A' + 10)
    else none

-- The spaces that `Number.parseInt` skips.
unfoldable pub is_space : ℕ → Bool
is_space c =
    (leb 9 c && leb c 13)
    || c == 32
    || c == 160
    || c == 5760
    || (leb 8192 c && leb c 8202)
    || c == 8232
    || c == 8233
    || c == 8239
    || c == 8287
    || c == 12288
    || c == 65279

pub or_zero : Option ℕ → ℕ
or_zero none = 0
or_zero (some d) = d

pub second_digit : ℕ → Option ℕ → ℕ
second_digit d none = d
second_digit d (some e) = d * 16 + e

-- `Number.parseInt` of two characters in base 16, as a byte array stores it: what is no number is
-- stored as 0, a negative one modulo 256.
unfoldable pub parse_pair : ℕ → ℕ → ℕ
unfolding is_space or_zero second_digit
parse_pair a b = elim (digit_value a) [
  | some d ↦ second_digit d (digit_value b)
  | none ↦
      if is_space a || a == b'+'
      then or_zero (digit_value b)
      else if a == b'-'
      then (256 - or_zero (digit_value b)) % 256
      else 0
]

-- A text of odd length loses its last character: the array's length is rounded down.
unfoldable pub hex_bytes : Text → Bytes
unfolding parse_pair
hex_bytes [] = []
hex_bytes (a ∷ []) = []
hex_bytes (a ∷ b ∷ value) = parse_pair a b ∷ hex_bytes value

unfoldable pub digit_char : ℕ → ℕ
digit_char d = if ltb d 10 then b'0' + d else b'a' + d - 10

-- `byte.toString(16).padStart(2, "0")`.
unfoldable pub hex_pair : ℕ → Text
unfolding digit_char
hex_pair byte =
    if ltb byte 16
    then b'0' ∷ digit_char byte ∷ []
    else digit_char (byte / 16) ∷ digit_char (byte % 16) ∷ []

unfoldable pub to_hex : Bytes → Text
unfolding hex_pair
to_hex [] = []
to_hex (byte ∷ bytes) = hex_pair byte ++ to_hex bytes
