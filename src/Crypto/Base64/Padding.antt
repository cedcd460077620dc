-- ===== src/Crypto/Base64/Padding.antt =====
-- The padding that `btoa` writes, `padEnd` restores, and `atob` and `base64Url` remove.
use dawn_mesh_server.Prelude.{
  ℕ, zero, suc, ◌+◌, ◌-◌, ◌*◌, ◌/◌, ◌%◌, ◌≡◌, refl, ap, sym, arith, [], ◌∷◌, length, replicate,
  ◌==◌, length-append, length-replicate, ok, false, ◌<◌,
}
use mathlib.Core.List.{append-nil}
use dawn_mesh_server.Crypto.Bytes.{Bytes, AreBytes}
use dawn_mesh_server.Crypto.Base64.{
  Text, btoa, pad_end, remove_padding, remove_spaces, atob, sextet_char,
}
use dawn_mesh_server.Crypto.Base64.Alphabet.{
  chars, chars-AreCoded, remove_spaces-append, decode_groups-chars, coded-ne-equals,
  IsCoded-sextet_char,
}

pad_end-four :
    (w x y z : ℕ) (text : Text) → pad_end (w ∷ x ∷ y ∷ z ∷ text) ≡ w ∷ x ∷ y ∷ z ∷ pad_end text
unfolding pad_end
pad_end-four w x y z text =
    let k : (suc (suc (suc (suc (length text)))) + 3) / 4 * 4 - suc (suc (suc (suc (length text))))
        ≡ (length text + 3) / 4 * 4 - length text =
      omega arith in
    rw k

pub btoa-chars : (bytes : Bytes) → btoa bytes ≡ pad_end (chars bytes)
unfolding btoa chars
btoa-chars [] = unfold pad_end in refl
btoa-chars (a ∷ []) = unfold pad_end in refl
btoa-chars (a ∷ b ∷ []) = unfold pad_end in refl
btoa-chars (a ∷ b ∷ c ∷ bytes) = rw (btoa-chars bytes) (
    sym (
      pad_end-four (sextet_char (a / 4)) (sextet_char (a % 4 * 16 + b / 16))
        (sextet_char (b % 16 * 4 + c / 64)) (sextet_char (c % 64)) (chars bytes)))

pub length-pad_end : (text : Text) → length (pad_end text) ≡ (length text + 3) / 4 * 4
unfolding pad_end
length-pad_end text = omega (
  arith,
  length-append text (replicate ((length text + 3) / 4 * 4 - length text) b'='),
  length-replicate {A = ℕ} ((length text + 3) / 4 * 4 - length text) b'=',
)

-- A text of whole groups needs no padding.
pub pad_end_whole : (text : Text) → length text % 4 ≡ 0 → pad_end text ≡ text
unfolding pad_end
pad_end_whole text h =
    let none_needed : (length text + 3) / 4 * 4 - length text ≡ 0 = omega arith in
    rw (none_needed, append-nil text)

pub pad_end_twice : (text : Text) → pad_end (pad_end text) ≡ pad_end text
pad_end_twice text = pad_end_whole (pad_end text) (omega (arith, length-pad_end text))

sextet-ne-equals : (n : ℕ) → n < 64 → (sextet_char n == b'=') ≡ false
sextet-ne-equals n h = coded-ne-equals (sextet_char n) (IsCoded-sextet_char n h)

-- Removing the padding of `btoa` leaves its characters.
pub remove_padding-btoa :
    (bytes : Bytes) → AreBytes bytes → remove_padding (btoa bytes) ≡ chars bytes
unfolding btoa chars remove_padding
remove_padding-btoa [] h = refl
remove_padding-btoa (a ∷ []) h = refl
remove_padding-btoa (a ∷ b ∷ []) h = rw (sextet-ne-equals (b % 16 * 4) (omega arith))
remove_padding-btoa (a ∷ b ∷ c ∷ []) h = rw (sextet-ne-equals (c % 64) (omega arith))
remove_padding-btoa (a ∷ b ∷ c ∷ d ∷ []) h = refl
remove_padding-btoa (a ∷ b ∷ c ∷ d ∷ e ∷ []) h = rw (sextet-ne-equals (e % 16 * 4) (omega arith))
remove_padding-btoa (a ∷ b ∷ c ∷ d ∷ e ∷ f ∷ bytes) h =
    rw (remove_padding-btoa (d ∷ e ∷ f ∷ bytes) h.1.1.1)

remove_spaces-equals : (k : ℕ) → remove_spaces (replicate k b'=') ≡ replicate k b'='
unfolding remove_spaces
remove_spaces-equals zero = refl
remove_spaces-equals (suc k) = ap (◌∷◌ b'=') (remove_spaces-equals k)

-- `atob` inverts `btoa`.
pub atob-btoa : (bytes : Bytes) → AreBytes bytes → atob (btoa bytes) ≡ ok bytes
unfolding atob
atob-btoa bytes h =
    let coded = chars-AreCoded bytes h in
    let k = (length (chars bytes) + 3) / 4 * 4 - length (chars bytes) in
    let clean : remove_spaces (btoa bytes) ≡ btoa bytes = rw (btoa-chars bytes) (
      unfold pad_end in
      rw (remove_spaces-append (chars bytes) (replicate k b'=') coded, remove_spaces-equals k)) in
    let whole : length (btoa bytes) % 4 ≡ 0 =
      rw (btoa-chars bytes) (omega (arith, length-pad_end (chars bytes))) in
    rw (clean, whole, remove_padding-btoa bytes h) (decode_groups-chars bytes h)
