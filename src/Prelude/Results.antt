-- ===== src/Prelude/Results.antt =====
-- Thrown errors as values. `RequestError` (frontend/src/shared/dom.ts) adds a status to `Error`.
use Prim.Native.Nat.{ℕ}
use Prim.Native.String.{String}
use mathlib.Core.Path.{◌≡◌, refl}
use mathlib.Core.Bool.{Bool, true, false}
use mathlib.Core.Option.{Option, none}

pub record Failure : Type 0 where
  pub name : String
  pub message : String
  pub status : Option ℕ

-- `new Error(message)`.
abbrev pub failure : String → Failure
failure message = record { name = "Error"; message = message; status = none }

pub data Result {ℓ} (Value : Type ℓ) : Type ℓ where
  ok : Value → Result Value
  err : Failure → Result Value

infixl 5 ◌>>=◌
-- What an `await`, or a call that may throw, is followed by.
abbrev pub ◌>>=◌ {ℓ κ} :
    {Value : Type ℓ} {Next : Type κ} → Result Value → (Value → Result Next) → Result Next
err failed >>= next = err failed
ok value >>= next = next value

infixl 5 ◌>>◌
abbrev pub ◌>>◌ {κ} : {Next : Type κ} → Result (Unit {0}) → Result Next → Result Next
checked >> rest = checked >>= λ done. rest

-- `if (bad) throw new Error(message)`.
abbrev pub throw_if : Bool → String → Result (Unit {0})
throw_if true message = err (failure message)
throw_if false message = ok tt

-- The value of a successful bind was made from a successful value.
pub >>=-eq-ok {ℓ κ} :
    {Value : Type ℓ} {Next : Type κ} (first : Result Value) (next : Value → Result Next)
    {out : Next}
    → (first >>= next) ≡ ok out
    → (value : Value) × (first ≡ ok value) × (next value ≡ ok out)
>>=-eq-ok (err failed) next same = cc
>>=-eq-ok (ok value) next same = (value, refl, same)
