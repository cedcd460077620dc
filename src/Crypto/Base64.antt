-- ===== src/Crypto/Base64.antt =====
-- `base64`, `base64Url`, `fromBase64` of frontend/src/client/crypto.ts and `mediaKey` of
-- frontend/src/shared/media-key.ts. A text is the list of its UTF-16 code units; `btoa` and `atob`
-- are those of the web platform (forgiving-base64).
pub mod Alphabet
pub mod Padding
pub mod RoundTrip
mod Tests
use dawn_mesh_server.Prelude.{
  ℕ, zero, suc, ◌+◌, ◌-◌, ◌*◌, ◌/◌, ◌%◌, Bool, true, false, ◌||◌, ◌&&◌, List, [], ◌∷◌, ◌++◌, map,
  Option, none, some, length, take, drop, replicate, ltb, leb, ◌==◌, if◌then◌else◌, Result, ok, err,
  Failure, ◌>>=◌,
}
use dawn_mesh_server.Crypto.Bytes.{Bytes}

abbrev pub Text : Type 0
Text = List ℕ

unfoldable pub sextet_char : ℕ → ℕ
sextet_char n =
    if ltb n 26
    then b'A' + n
    else if ltb n 52
    then b'a' + n - 26
    else if ltb n 62
    then b'0' + n - 52
    else if n == 62
    then b'+'
    else b'/'

-- `btoa`.
pub btoa : Bytes → Text
unfolding sextet_char
btoa [] = []
btoa (a ∷ []) = sextet_char (a / 4) ∷ sextet_char (a % 4 * 16) ∷ b'=' ∷ b'=' ∷ []
btoa (a ∷ b ∷ []) =
    sextet_char (a / 4) ∷ sextet_char (a % 4 * 16 + b / 16) ∷ sextet_char (b % 16 * 4) ∷ b'=' ∷ []
btoa (a ∷ b ∷ c ∷ bytes) =
    sextet_char (a / 4)
    ∷ sextet_char (a % 4 * 16 + b / 16)
    ∷ sextet_char (b % 16 * 4 + c / 64)
    ∷ sextet_char (c % 64)
    ∷ btoa bytes

pub invalid_character : Failure
invalid_character = record {
  name = "InvalidCharacterError";
  message = "invalid character";
  status = none;
}

unfoldable pub char_sextet : ℕ → Result ℕ
unfolding invalid_character
char_sextet c =
    if leb b'A' c && leb c b'Z'
    then ok (c - b'A')
    else if leb b'a' c && leb c b'z'
    then ok (c - b'a' + 26)
    else if leb b'0' c && leb c b'9'
    then ok (c - b'0' + 52)
    else if c == b'+'
    then ok 62
    else if c == b'/'
    then ok 63
    else err invalid_character

-- The groups of an unpadded text.
pub decode_groups : Text → Result Bytes
unfolding char_sextet invalid_character
decode_groups [] = ok []
decode_groups (w ∷ []) = err invalid_character
decode_groups (w ∷ x ∷ []) = do a ← char_sextet w; b ← char_sextet x; ok ((a * 4 + b / 16) ∷ [])
decode_groups (w ∷ x ∷ y ∷ []) = do
  a ← char_sextet w
  b ← char_sextet x
  c ← char_sextet y
  ok ((a * 4 + b / 16) ∷ (b % 16 * 16 + c / 4) ∷ [])
decode_groups (w ∷ x ∷ y ∷ z ∷ text) = do
  a ← char_sextet w
  b ← char_sextet x
  c ← char_sextet y
  d ← char_sextet z
  bytes ← decode_groups text
  ok ((a * 4 + b / 16) ∷ (b % 16 * 16 + c / 4) ∷ (c % 4 * 64 + d) ∷ bytes)

pub is_ascii_space : ℕ → Bool
is_ascii_space c = c == 9 || c == 10 || c == 12 || c == 13 || c == 32

pub remove_spaces : Text → Text
unfolding is_ascii_space
remove_spaces [] = []
remove_spaces (c ∷ text) = if is_ascii_space c then remove_spaces text else c ∷ remove_spaces text

-- One or two `=` at the end.
pub remove_padding : Text → Text
remove_padding [] = []
remove_padding (x ∷ []) = if x == b'=' then [] else x ∷ []
remove_padding (x ∷ y ∷ []) = if y == b'=' then (if x == b'=' then [] else x ∷ []) else x ∷ y ∷ []
remove_padding (x ∷ y ∷ z ∷ text) = x ∷ remove_padding (y ∷ z ∷ text)

-- `atob`.
pub atob : Text → Result Bytes
unfolding remove_spaces remove_padding decode_groups
atob text =
    let data_text = remove_spaces text in
    decode_groups (if length data_text % 4 == 0 then remove_padding data_text else data_text)

-- The loop of `base64` over chunks of 0x8000 bytes, from `offset`.
pub binary_from : ℕ → ℕ → Text → Bytes → Text
binary_from zero offset binary bytes = binary
binary_from (suc fuel) offset binary bytes =
    let rest = binary_from fuel (offset + 32768) (binary ++ take 32768 (drop offset bytes)) bytes in
    if ltb offset (length bytes) then rest else binary

unfoldable pub base64 : Bytes → Text
unfolding binary_from btoa
base64 bytes = btoa (binary_from (length bytes + 1) 0 [] bytes)

-- `replaceAll("+", "-").replaceAll("/", "_")`, and back.
abbrev pub to_url : ℕ → ℕ
to_url c = if c == b'+' then b'-' else if c == b'/' then b'_' else c

abbrev pub from_url : ℕ → ℕ
from_url c = if c == b'-' then b'+' else if c == b'_' then b'/' else c

-- `replace(/=+$/u, "")`.
pub strip_before : ℕ → Text → Text
strip_before c [] = if c == b'=' then [] else c ∷ []
strip_before c (d ∷ text) = c ∷ d ∷ text

pub strip_padding : Text → Text
unfolding strip_before
strip_padding [] = []
strip_padding (c ∷ text) = strip_before c (strip_padding text)

-- `padEnd(Math.ceil(length / 4) * 4, "=")`.
pub pad_end : Text → Text
pad_end text = text ++ replicate ((length text + 3) / 4 * 4 - length text) b'='

unfoldable pub base64_url : Bytes → Text
unfolding base64 strip_padding
base64_url bytes = strip_padding (map to_url (base64 bytes))

unfoldable pub from_base64 : Text → Result Bytes
unfolding pad_end atob
from_base64 value = atob (pad_end (map from_url value))

unfoldable pub media_key : Text → Text
unfolding pad_end
media_key encoded = pad_end (map to_url encoded)
