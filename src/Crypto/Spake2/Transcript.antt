-- ===== src/Crypto/Spake2/Transcript.antt =====
-- The transcript of `Spake2.finish` determines its fields.
use mathlib.Core.List.{flatten}
use dawn_mesh_server.Prelude.{
  ◌^◌, ◌<◌, ◌≡◌, refl, sym, ap₂, ◌∙◌, arith, List, [], ◌∷◌, length, All, append_split,
}
use dawn_mesh_server.Crypto.Bytes.{Bytes, uint64_le}
use dawn_mesh_server.Crypto.Bytes.Integers.{length-uint64_le, uint64_le_injective}
use dawn_mesh_server.Crypto.Bytes.Joining.{concat-flatten}
use dawn_mesh_server.Crypto.Spake2.{framed, transcript_of}

-- A field whose length fits 64 bits.
abbrev pub IsShort : Bytes → Type 0
IsShort field = length field < 2 ^ 64

flatten-framed_injective :
    (xs ys : List Bytes)
    → length xs ≡ length ys
    → All IsShort xs
    → All IsShort ys
    → flatten (framed xs) ≡ flatten (framed ys)
    → xs ≡ ys
unfolding flatten framed
flatten-framed_injective [] [] l hx hy e = refl
flatten-framed_injective [] (y ∷ ys) l hx hy e = absurd (omega arith)
flatten-framed_injective (x ∷ xs) [] l hx hy e = absurd (omega arith)
flatten-framed_injective (x ∷ xs) (y ∷ ys) l hx hy e =
    let sizes =
      append_split (uint64_le (length x)) (uint64_le (length y))
        (length-uint64_le (length x) ∙ sym (length-uint64_le (length y))) e in
    let size = uint64_le_injective (length x) (length y) hx.0 hy.0 sizes.0 in
    let fields = append_split x y size sizes.1 in
    ap₂ ◌∷◌ fields.0 (flatten-framed_injective xs ys (omega arith) hx.1 hy.1 fields.1)

-- Two lists of as many fields, each of fewer than 2^64 bytes, that have one transcript are the same.
pub transcript_of_injective :
    (xs ys : List Bytes)
    → length xs ≡ length ys
    → All IsShort xs
    → All IsShort ys
    → transcript_of xs ≡ transcript_of ys
    → xs ≡ ys
unfolding transcript_of
transcript_of_injective xs ys l hx hy e =
    flatten-framed_injective xs ys l hx hy
      (sym (concat-flatten (framed xs)) ∙ e ∙ concat-flatten (framed ys))
