-- ===== src/Crypto/Bytes/Joining.antt =====
-- `concat` of frontend/src/client/crypto.ts: its copy loop joins the arrays in order.
use mathlib.Core.List.{flatten, append-nil, append_assoc}
use native.Mathlib.Nat.{add-zero, zero-add}
use dawn_mesh_server.Prelude.{
  ℕ, suc, ◌+◌, ◌≤◌, ◌≡◌, refl, sym, take-append-drop, take_append, length-take, ◌∙◌, arith, List,
  [], ◌∷◌, ◌++◌, length, take, drop, set, replicate, length-append, length-set, length-replicate,
  take-set, drop-set_above, drop_all, All, All-append,
}
use dawn_mesh_server.Crypto.Bytes.{
  Bytes, IsByte, AreBytes, set_from, total_length, join_from, concat,
}

abbrev size : List Bytes → ℕ
size [] = 0
size (value ∷ arrays) = length value + size arrays

total_length-size : (sum : ℕ) (arrays : List Bytes) → total_length sum arrays ≡ sum + size arrays
unfolding total_length
total_length-size sum [] = omega arith
total_length-size sum (value ∷ arrays) =
    omega (arith, total_length-size (sum + length value) arrays)

pub length-set_from :
    (output : Bytes) (offset : ℕ) (values : Bytes)
    → length (set_from output offset values) ≡ length output
unfolding set_from
length-set_from output offset [] = refl
length-set_from output offset (v ∷ values) =
    length-set_from (set output offset v) (offset + 1) values ∙ length-set output offset v

-- A copy that fits replaces just the entries from `offset` on.
pub set_from_lem :
    (output : Bytes) (offset : ℕ) (values : Bytes)
    → offset + length values ≤ length output
    → set_from output offset values
      ≡ take offset output ++ (values ++ drop (offset + length values) output)
unfolding set_from
set_from_lem output offset [] h = rw (add-zero offset) (sym (take-append-drop offset output))
set_from_lem output offset (v ∷ values) h =
    let ih =
      set_from_lem (set output offset v) (offset + 1) values
        (omega (arith, length-set output offset v)) in
    let next : offset + 1 ≡ suc offset = omega arith in
    let after : offset + 1 + length values ≡ offset + suc (length values) = omega arith in
    rw (
      ih,
      next,
      take-set offset output v (omega arith),
      ← next,
      after,
      drop-set_above (offset + suc (length values)) offset output v (omega arith),
      append_assoc (take offset output) (v ∷ [])
          (values ++ drop (offset + suc (length values)) output),
    )

-- Past the copied entries nothing changes, and up to their end the array is as it was copied.
drop-set_from :
    (n : ℕ) (output : Bytes) (offset : ℕ) (values : Bytes)
    → offset + length values ≤ n
    → drop n (set_from output offset values) ≡ drop n output
unfolding set_from
drop-set_from n output offset [] h = refl
drop-set_from n output offset (v ∷ values) h =
    drop-set_from n (set output offset v) (offset + 1) values (omega arith)
    ∙ drop-set_above n offset output v (omega arith)

take-set_from :
    (output : Bytes) (offset : ℕ) (values : Bytes)
    → offset + length values ≤ length output
    → take (offset + length values) (set_from output offset values) ≡ take offset output ++ values
take-set_from output offset values h =
    rw
      (
        set_from_lem output offset values h,
        ← append_assoc (take offset output) values (drop (offset + length values) output),
      )
      (take_append (offset + length values) (take offset output ++ values)
        (drop (offset + length values) output)
        (omega (arith, length-append (take offset output) values, length-take offset output)))

join_from_lem :
    (output : Bytes) (offset : ℕ) (arrays : List Bytes)
    → offset + size arrays ≤ length output
    → join_from output offset arrays
      ≡ take offset output ++ (flatten arrays ++ drop (offset + size arrays) output)
unfolding join_from flatten
join_from_lem output offset [] h = rw (add-zero offset) (sym (take-append-drop offset output))
join_from_lem output offset (value ∷ arrays) h =
    let after : offset + length value + size arrays ≡ offset + (length value + size arrays) =
      omega arith in
    let rest = drop (offset + (length value + size arrays)) output in
    rw (
      join_from_lem (set_from output offset value) (offset + length value) arrays
          (omega (arith, length-set_from output offset value)),
      take-set_from output offset value (omega arith),
      after,
      drop-set_from (offset + (length value + size arrays)) output offset value (omega arith),
      append_assoc (take offset output) value (flatten arrays ++ rest),
      append_assoc value (flatten arrays) rest,
    )

-- `concat` is the arrays one after the other.
pub concat-flatten : (arrays : List Bytes) → concat arrays ≡ flatten arrays
unfolding concat
concat-flatten arrays =
    let n = size arrays in
    let zeros : length (replicate {A = ℕ} n 0) ≡ n = length-replicate n 0 in
    rw (
      total_length-size 0 arrays,
      zero-add n,
      join_from_lem (replicate n 0) 0 arrays (omega arith),
      zero-add n,
      drop_all {A = ℕ} n (replicate n 0) (omega arith),
      append-nil (flatten arrays),
    )

pub flatten-AreBytes : (arrays : List Bytes) → All AreBytes arrays → AreBytes (flatten arrays)
unfolding flatten
flatten-AreBytes [] h = tt
flatten-AreBytes (value ∷ arrays) h =
    All-append IsByte value (flatten arrays) h.0 (flatten-AreBytes arrays h.1)
