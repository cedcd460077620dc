-- ===== src/Prelude/Maps.antt =====
-- JavaScript's `Map` and `Set` as association lists in insertion order, over keys that are compared
-- by `===`.
use mathlib.Core.Path.{◌≡◌, refl, ◌∙◌}
use mathlib.Core.Logic.{◌↔◌}
use mathlib.Core.Bool.{Bool, true, false, ◌&&◌, ◌||◌}
use mathlib.Core.Option.{Option, none, some}
use mathlib.Core.List.{List, [], ◌∷◌, ◌++◌}
use native.Mathlib.Omega.{arith}
use Prim.Native.Nat.{ℕ, ◌+◌}
use Prim.Native.String.{String}
use text.Mathlib.Text
use text.Mathlib.TextEquality
use dawn_mesh_server.Prelude.Booleans.{if◌then◌else◌, ==_iff, ◌==◌}
use dawn_mesh_server.Prelude.Lists.{length}

pub record Eq {ℓ} (A : Type ℓ) : Type ℓ where
  pub beq : A → A → Bool
  pub beq_iff : (a b : A) → (beq a b ≡ true) ↔ (a ≡ b)

infix 50 ◌===◌
abbrev pub ◌===◌ {ℓ} : {A : Type ℓ} ⦃e : Eq A⦄ → A → A → Bool
◌===◌ ⦃e⦄ = e.beq

abbrev pub codes_equal : List ℕ → List ℕ → Bool
codes_equal [] [] = true
codes_equal (x ∷ xs) (y ∷ ys) = x == y && codes_equal xs ys
codes_equal _ _ = false

pub codes_equal_iff : (xs ys : List ℕ) → (codes_equal xs ys ≡ true) ↔ (xs ≡ ys)
codes_equal_iff [] [] = (λ h. refl, λ h. refl)
codes_equal_iff [] (y ∷ ys) = (λ h. cc, λ h. cc)
codes_equal_iff (x ∷ xs) [] = (λ h. cc, λ h. cc)
codes_equal_iff (x ∷ xs) (y ∷ ys) =
    (λ h. ground (arith, codes_equal_iff xs ys), λ h. ground (arith, codes_equal_iff xs ys))

instance abbrev pub codes_eq : Eq (List ℕ)
codes_eq = record { beq = codes_equal; beq_iff = codes_equal_iff }

instance abbrev pub string_eq : Eq String
string_eq = record { beq = Text.◌==◌; beq_iff = TextEquality.eq_iff }

instance abbrev pub number_eq : Eq ℕ
number_eq = record { beq = ◌==◌; beq_iff = ==_iff }

module _ {ℓ} {A : Type ℓ} ⦃e : Eq A⦄ where
  pub ===_refl : (a : A) → (a === a) ≡ true
  ===_refl a = (e.beq_iff a a).1 refl

  -- `set.has(a)`.
  abbrev pub contains : A → List A → Bool
  contains a [] = false
  contains a (b ∷ xs) = b === a || contains a xs

module _ {ℓ} {A : Type ℓ} ⦃e : Eq A⦄ where
  pub contains-append :
      (a : A) (xs ys : List A) → contains a (xs ++ ys) ≡ (contains a xs || contains a ys)
  contains-append a [] ys = refl
  contains-append a (x ∷ xs) ys = ground (arith, contains-append a xs ys)

abbrev pub one_if_none {ℓ} : {V : Type ℓ} → Option V → ℕ
one_if_none none = 1
one_if_none (some v) = 0

module _ {ℓ κ} {K : Type ℓ} {V : Type κ} ⦃e : Eq K⦄ where
  -- `map.get(k)`.
  abbrev pub get : K → List (K × V) → Option V
  get k [] = none
  get k ((j, v) ∷ m) = if j === k then some v else get k m

  -- `map.set(k, v)`: an old key keeps its place.
  abbrev pub put : K → V → List (K × V) → List (K × V)
  put k v [] = (k, v) ∷ []
  put k v ((j, w) ∷ m) = if j === k then (k, v) ∷ m else (j, w) ∷ put k v m

  -- `map.delete(k)`.
  abbrev pub delete : K → List (K × V) → List (K × V)
  delete k [] = []
  delete k ((j, v) ∷ m) = if j === k then delete k m else (j, v) ∷ delete k m

  pub get-put :
      (k j : K) (v : V) (m : List (K × V))
      → get j (put k v m) ≡ (if k === j then some v else get j m)
  get-put k j v [] = refl
  get-put k j v ((i, w) ∷ m) =
      ground (arith, e.beq_iff k j, e.beq_iff i k, e.beq_iff i j, get-put k j v m)

  pub get-delete :
      (k j : K) (m : List (K × V)) → get j (delete k m) ≡ (if k === j then none else get j m)
  get-delete k j [] = ground arith
  get-delete k j ((i, w) ∷ m) =
      ground (arith, e.beq_iff k j, e.beq_iff i k, e.beq_iff i j, get-delete k j m)

  pub get-put_self : (k : K) (v : V) (m : List (K × V)) → get k (put k v m) ≡ some v
  get-put_self k v m = get-put k k v m ∙ rw (===_refl k)

  -- Only a new key makes the map longer.
  pub length-put :
      (k : K) (v : V) (m : List (K × V)) → length (put k v m) ≡ length m + one_if_none (get k m)
  length-put k v [] = omega arith
  length-put k v ((j, w) ∷ m) = ground (arith, length-put k v m)
