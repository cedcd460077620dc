-- ===== src/Crypto/Base64/RoundTrip.antt =====
-- Encoding and decoding of keys, salts and tokens, and the normal form of the media key.
use mathlib.Core.List.{append-nil, append_assoc, map-append}
use native.Mathlib.Nat.{zero-add, suc-add}
use dawn_mesh_server.Prelude.{
  ℕ, zero, suc, ◌+◌, ◌-◌, ◌*◌, ◌/◌, ◌%◌, ◌<◌, ◌≡◌, refl, ap, ap₂, sym, ◌∙◌, arith, List, [], ◌∷◌,
  ◌++◌, map, length, replicate, take, drop, ok, ltb, drop_all, take-append-drop, Bool-cases, inl,
  inr, ltb→le,
}
use dawn_mesh_server.Crypto.Bytes.{Bytes, AreBytes}
use dawn_mesh_server.Crypto.Base64.{
  Text, to_url, from_url, btoa, pad_end, binary_from, base64, base64_url, from_base64, media_key,
}
use dawn_mesh_server.Crypto.Base64.Alphabet.{
  chars, chars-AreCoded, map-from_url-to_url, map-from_url, strip_padding-append,
}
use dawn_mesh_server.Crypto.Base64.Padding.{btoa-chars, length-pad_end, pad_end_twice, atob-btoa}

drop-nil : (n : ℕ) → drop {A = ℕ} n [] ≡ []
drop-nil zero = refl
drop-nil (suc n) = refl

drop-drop : (m n : ℕ) (xs : List ℕ) → drop n (drop m xs) ≡ drop (m + n) xs
drop-drop zero n xs = rw (zero-add n)
drop-drop (suc m) n [] = drop-nil n ∙ sym (drop-nil (suc m + n))
drop-drop (suc m) n (x ∷ xs) = rw (suc-add m n) (drop-drop m n xs)

-- The chunks put together are the whole array, with fuel for one round more than there are bytes.
binary_from_lem :
    (fuel offset : ℕ) (binary : Text) (bytes : Bytes)
    → length bytes < offset + fuel
    → binary_from fuel offset binary bytes ≡ binary ++ drop offset bytes
unfolding binary_from
binary_from_lem zero offset binary bytes h =
    rw (drop_all offset bytes (omega arith)) (sym (append-nil binary))
binary_from_lem (suc fuel) offset binary bytes h = elim (Bool-cases (ltb offset (length bytes))) [
  | inl more ↦ rw (
    more,
    binary_from_lem fuel (offset + 32768) (binary ++ take 32768 (drop offset bytes)) bytes
        (omega arith),
    append_assoc binary (take 32768 (drop offset bytes)) (drop (offset + 32768) bytes),
    ← drop-drop offset 32768 bytes,
    take-append-drop 32768 (drop offset bytes),
  )
  | inr done ↦
      rw (done, drop_all offset bytes (ltb→le offset (length bytes) done)) (sym (append-nil binary))
]

-- `base64` is `btoa` of the bytes, whatever the chunks.
pub base64-btoa : (bytes : Bytes) → base64 bytes ≡ btoa bytes
unfolding base64
base64-btoa bytes = ap btoa (binary_from_lem (length bytes + 1) 0 [] bytes (omega arith))

map-replicate : (f : ℕ → ℕ) (k c : ℕ) → f c ≡ c → map f (replicate k c) ≡ replicate k c
map-replicate f zero c h = refl
map-replicate f (suc k) c h = ap₂ ◌∷◌ h (map-replicate f k c h)

length-map : (f : ℕ → ℕ) (xs : List ℕ) → length (map f xs) ≡ length xs
length-map f [] = refl
length-map f (x ∷ xs) = ap suc (length-map f xs)

-- A map that keeps `=` goes past the padding.
map-pad_end :
    (f : ℕ → ℕ) (text : Text) → f b'=' ≡ b'=' → map f (pad_end text) ≡ pad_end (map f text)
unfolding pad_end
map-pad_end f text h =
    let k = (length text + 3) / 4 * 4 - length text in
    rw (map-append f text (replicate k b'='), map-replicate f k b'=' h, length-map f text)

-- The URL form is the characters without padding.
base64_url-chars : (bytes : Bytes) → AreBytes bytes → base64_url bytes ≡ map to_url (chars bytes)
unfolding base64_url
base64_url-chars bytes h =
    let k = (length (chars bytes) + 3) / 4 * 4 - length (chars bytes) in
    rw (base64-btoa bytes, btoa-chars bytes)
      (unfold pad_end in
        rw (map-append to_url (chars bytes) (replicate k b'='), map-replicate to_url k b'=' refl)
          (strip_padding-append (chars bytes) k (chars-AreCoded bytes h)))

-- Decoding inverts `base64`.
pub from_base64-base64 : (bytes : Bytes) → AreBytes bytes → from_base64 (base64 bytes) ≡ ok bytes
unfolding from_base64
from_base64-base64 bytes h =
    rw
      (
        base64-btoa bytes,
        btoa-chars bytes,
        map-pad_end from_url (chars bytes) refl,
        map-from_url (chars bytes) (chars-AreCoded bytes h),
        pad_end_twice (chars bytes),
        ← btoa-chars bytes,
      )
      (atob-btoa bytes h)

-- Decoding inverts `base64Url` too.
pub from_base64-base64_url :
    (bytes : Bytes) → AreBytes bytes → from_base64 (base64_url bytes) ≡ ok bytes
unfolding from_base64
from_base64-base64_url bytes h =
    rw
      (
        base64_url-chars bytes h,
        map-from_url-to_url (chars bytes) (chars-AreCoded bytes h),
        ← btoa-chars bytes,
      )
      (atob-btoa bytes h)

to_url-twice : (text : Text) → map to_url (map to_url text) ≡ map to_url text
to_url-twice [] = refl
to_url-twice (c ∷ text) = ap₂ ◌∷◌ (once c) (to_url-twice text)
  where
    once : (c : ℕ) → to_url (to_url c) ≡ to_url c
    once c = ground arith

-- Both spellings of a key have one media key: whole groups, and bytes that decode to the key.
pub media_key_normal :
    (bytes : Bytes)
    → AreBytes bytes
    → (media_key (base64_url bytes) ≡ media_key (base64 bytes))
      × (length (media_key (base64 bytes)) % 4 ≡ 0)
      × (from_base64 (media_key (base64 bytes)) ≡ ok bytes)
unfolding media_key from_base64
media_key_normal bytes h =
    let coded = chars-AreCoded bytes h in
    let url : media_key (base64_url bytes) ≡ pad_end (map to_url (chars bytes)) =
      rw (base64_url-chars bytes h, to_url-twice (chars bytes)) in
    let std : media_key (base64 bytes) ≡ pad_end (map to_url (chars bytes)) = rw (
      base64-btoa bytes,
      btoa-chars bytes,
      map-pad_end to_url (chars bytes) refl,
      pad_end_twice (map to_url (chars bytes)),
    ) in
    (
      url ∙ sym std,
      rw std (omega (arith, length-pad_end (map to_url (chars bytes)))),
      rw
          (
            std,
            map-pad_end from_url (map to_url (chars bytes)) refl,
            map-from_url-to_url (chars bytes) coded,
            pad_end_twice (chars bytes),
            ← btoa-chars bytes,
          )
          (atob-btoa bytes h),
    )

-- Normalising twice changes nothing, for any text.
pub media_key_idempotent : (text : Text) → media_key (media_key text) ≡ media_key text
unfolding media_key
media_key_idempotent text =
    rw (
      map-pad_end to_url (map to_url text) refl,
      to_url-twice text,
      pad_end_twice (map to_url text),
    )
