-- ===== src/Crypto/Base64/Alphabet.antt =====
-- The characters of base64: what they stand for, and what the other steps do with them.
use dawn_mesh_server.Prelude.{
  ℕ, ◌+◌, ◌*◌, ◌/◌, ◌%◌, ◌<◌, ◌≡◌, zero, suc, ap₂, refl, arith, false, ◌==◌, [], ◌∷◌, ◌++◌, map,
  All, ok, replicate,
}
use dawn_mesh_server.Crypto.Bytes.{Bytes, AreBytes}
use dawn_mesh_server.Crypto.Base64.{
  Text, sextet_char, char_sextet, is_ascii_space, remove_spaces, to_url, from_url, strip_padding,
  strip_before, decode_groups,
}

pub record IsCoded (c : ℕ) : Type 0 where
  pub sextet : ℕ
  pub small : sextet < 64
  pub coded : c ≡ sextet_char sextet

pub char_sextet-sextet_char : (n : ℕ) → n < 64 → char_sextet (sextet_char n) ≡ ok n
unfolding char_sextet sextet_char
char_sextet-sextet_char n h = ground arith

pub coded-ne-equals : (c : ℕ) → IsCoded c → (c == b'=') ≡ false
unfolding sextet_char
coded-ne-equals c h = ground arith

coded-not-space : (c : ℕ) → IsCoded c → is_ascii_space c ≡ false
unfolding is_ascii_space sextet_char
coded-not-space c h = ground arith

from_url-to_url : (c : ℕ) → IsCoded c → from_url (to_url c) ≡ c
unfolding sextet_char
from_url-to_url c h = ground arith

from_url-coded : (c : ℕ) → IsCoded c → from_url c ≡ c
unfolding sextet_char
from_url-coded c h = ground arith

to_url-coded-ne-equals : (c : ℕ) → IsCoded c → (to_url c == b'=') ≡ false
unfolding sextet_char
to_url-coded-ne-equals c h = ground arith

-- The characters of `btoa` before its padding.
unfoldable pub chars : Bytes → Text
chars [] = []
chars (a ∷ []) = sextet_char (a / 4) ∷ sextet_char (a % 4 * 16) ∷ []
chars (a ∷ b ∷ []) =
    sextet_char (a / 4) ∷ sextet_char (a % 4 * 16 + b / 16) ∷ sextet_char (b % 16 * 4) ∷ []
chars (a ∷ b ∷ c ∷ bytes) =
    sextet_char (a / 4)
    ∷ sextet_char (a % 4 * 16 + b / 16)
    ∷ sextet_char (b % 16 * 4 + c / 64)
    ∷ sextet_char (c % 64)
    ∷ chars bytes

pub IsCoded-sextet_char : (n : ℕ) → n < 64 → IsCoded (sextet_char n)
IsCoded-sextet_char n h = record { sextet = n; small = h; coded = refl }

pub chars-AreCoded : (bytes : Bytes) → AreBytes bytes → All IsCoded (chars bytes)
unfolding chars
chars-AreCoded [] h = tt
chars-AreCoded (a ∷ []) h =
    (IsCoded-sextet_char _ (omega arith), (IsCoded-sextet_char _ (omega arith), tt))
chars-AreCoded (a ∷ b ∷ []) h = (
  IsCoded-sextet_char _ (omega arith),
  (IsCoded-sextet_char _ (omega arith), (IsCoded-sextet_char _ (omega arith), tt)),
)
chars-AreCoded (a ∷ b ∷ c ∷ bytes) h = (
  IsCoded-sextet_char _ (omega arith),
  (
    IsCoded-sextet_char _ (omega arith),
    (
      IsCoded-sextet_char _ (omega arith),
      (IsCoded-sextet_char _ (omega arith), chars-AreCoded bytes h.1.1.1),
    ),
  ),
)

-- What maps to the URL alphabet and back, and what the decoder does with each group.
pub map-from_url-to_url : (text : Text) → All IsCoded text → map from_url (map to_url text) ≡ text
map-from_url-to_url [] h = refl
map-from_url-to_url (c ∷ text) h = ap₂ ◌∷◌ (from_url-to_url c h.0) (map-from_url-to_url text h.1)

pub map-from_url : (text : Text) → All IsCoded text → map from_url text ≡ text
map-from_url [] h = refl
map-from_url (c ∷ text) h = ap₂ ◌∷◌ (from_url-coded c h.0) (map-from_url text h.1)

pub remove_spaces-append :
    (text rest : Text)
    → All IsCoded text
    → remove_spaces (text ++ rest) ≡ text ++ remove_spaces rest
unfolding remove_spaces
remove_spaces-append [] rest h = refl
remove_spaces-append (c ∷ text) rest h =
    rw (coded-not-space c h.0, remove_spaces-append text rest h.1)

pub strip_padding-append :
    (text : Text) (k : ℕ)
    → All IsCoded text
    → strip_padding (map to_url text ++ replicate k b'=') ≡ map to_url text
unfolding strip_padding
strip_padding-append [] zero h = refl
strip_padding-append [] (suc k) h = rw (strip_padding-append [] k h)
strip_padding-append (c ∷ text) k h =
    rw (strip_padding-append text k h.1)
      (strip_before-lem (map to_url text) (to_url c) (to_url-coded-ne-equals c h.0))
  where
    strip_before-lem : (rest : Text) (d : ℕ) → (d == b'=') ≡ false → strip_before d rest ≡ d ∷ rest
    strip_before-lem [] d e = rw e
    strip_before-lem (x ∷ rest) d e = refl

pub decode_groups-chars : (bytes : Bytes) → AreBytes bytes → decode_groups (chars bytes) ≡ ok bytes
unfolding decode_groups chars
decode_groups-chars [] h = refl
decode_groups-chars (a ∷ []) h =
    rw
      (
        char_sextet-sextet_char (a / 4) (omega arith),
        char_sextet-sextet_char (a % 4 * 16) (omega arith),
      )
      (ground arith)
decode_groups-chars (a ∷ b ∷ []) h =
    rw
      (
        char_sextet-sextet_char (a / 4) (omega arith),
        char_sextet-sextet_char (a % 4 * 16 + b / 16) (omega arith),
        char_sextet-sextet_char (b % 16 * 4) (omega arith),
      )
      (ground arith)
decode_groups-chars (a ∷ b ∷ c ∷ bytes) h =
    rw
      (
        char_sextet-sextet_char (a / 4) (omega arith),
        char_sextet-sextet_char (a % 4 * 16 + b / 16) (omega arith),
        char_sextet-sextet_char (b % 16 * 4 + c / 64) (omega arith),
        char_sextet-sextet_char (c % 64) (omega arith),
        decode_groups-chars bytes h.1.1.1,
      )
      (ground arith)
