-- ===== src/Client/Errors/Wrapping.antt =====
-- What `operation` of frontend/src/client/app.ts does to the text that `errorText` finds.
use dawn_mesh_server.Prelude.{
  ℕ, zero, suc, ◌≡◌, refl, ap, arith, Bool, true, false, ◌&&◌, List, [], ◌∷◌, ◌++◌, Option, none,
  some, String, if◌then◌else◌, ◌==◌, length, length-append, ltb, &&-true,
}
use dawn_mesh_server.Prelude.Maps.{string_eq, number_eq, contains}
use dawn_mesh_server.Client.Errors.{
  Value, error_object, other, ErrorObject, error_at, is_self, add_name, collect_names, enough,
  class_text, error_text, wrapped, operation,
}

-- A value is not an error, or is one of the first `n`.
abbrev pub is_below : ℕ → Option Value → Bool
is_below n (some (error_object i)) = ltb i n
is_below n _ = true

-- Every cause is one of the errors that there are.
abbrev pub all_below : ℕ → List ErrorObject → Bool
all_below n [] = true
all_below n (e ∷ errors) = is_below n e.cause && all_below n errors

cause_below :
    (n i : ℕ) (errors : List ErrorObject)
    → all_below n errors ≡ true
    → is_below n (error_at errors i).cause ≡ true
cause_below n i [] h = refl
cause_below n zero (e ∷ errors) h = (&&-true (is_below n e.cause) (all_below n errors) h).0
cause_below n (suc i) (e ∷ errors) h =
    cause_below n i errors (&&-true (is_below n e.cause) (all_below n errors) h).1

-- An older error is found among more.
error_at-append :
    (errors more : List ErrorObject) (i : ℕ)
    → ltb i (length errors) ≡ true
    → error_at (errors ++ more) i ≡ error_at errors i
error_at-append [] more i h = absurd (ground arith)
error_at-append (e ∷ errors) more zero h = refl
error_at-append (e ∷ errors) more (suc i) h = error_at-append errors more i (ground arith)

error_at-last :
    (errors : List ErrorObject) (e : ErrorObject)
    → error_at (errors ++ (e ∷ [])) (length errors) ≡ e
error_at-last [] e = refl
error_at-last (d ∷ errors) e = error_at-last errors e

-- Errors that no cause names, and visits to them, change nothing.
collect_more :
    (fuel : ℕ) (errors more : List ErrorObject) (visited marked : List ℕ) (current : Option Value)
    → ((i : ℕ) → ltb i (length errors) ≡ true → contains i marked ≡ contains i visited)
    → all_below (length errors) errors ≡ true
    → is_below (length errors) current ≡ true
    → collect_names fuel (errors ++ more) marked current ≡ collect_names fuel errors visited current
unfolding collect_names
collect_more zero errors more visited marked current agree closed below = refl
collect_more (suc fuel) errors more visited marked none agree closed below = refl
collect_more (suc fuel) errors more visited marked (some (other text)) agree closed below = refl
collect_more (suc fuel) errors more visited marked (some (error_object i)) agree closed below =
    let e = error_at errors i in
    let after = if is_self i e.cause then none else e.cause in
    let rest =
      collect_more fuel errors more (i ∷ visited) (i ∷ marked) after
        (λ j there. rw (agree j there) refl) closed
        (by_self (is_self i e.cause) e.cause (cause_below (length errors) i errors closed)) in
    rw (agree i below, error_at-append errors more i below)
      (ap (λ names. if contains i visited then some [] else add_name e.name names) rest)
  where
    by_self :
        (b : Bool) (cause : Option Value)
        → is_below (length errors) cause ≡ true
        → is_below (length errors) (if b then none else cause) ≡ true
    by_self true cause h = refl
    by_self false cause h = h

class_text-Error : (names : List String) → class_text ("Error" ∷ names) ≡ class_text names
unfolding class_text
class_text-Error names = refl

-- The names that are collected from a wrapped error are its own and those of its cause.
names_of_wrapped :
    (errors : List ErrorObject) (stage text : String) (i : ℕ) (status : Option ℕ)
    → all_below (length errors) errors ≡ true
    → ltb i (length errors) ≡ true
    → let e = wrapped stage text i status in
      collect_names
        (enough (errors ++ (e ∷ [])))
        (errors ++ (e ∷ []))
        []
        (some (error_object (length errors)))
      ≡ add_name "Error" (collect_names (enough errors) errors [] (some (error_object i)))
unfolding collect_names
names_of_wrapped errors stage text i status closed below =
    let n = length errors in
    let e = wrapped stage text i status in
    let one_more : enough (errors ++ (e ∷ [])) ≡ suc (enough errors) =
      omega (arith, length-append errors (e ∷ [])) in
    let other_error : (i == n) ≡ false = ground arith in
    rw (one_more, error_at-last errors e, other_error)
      (ap (add_name "Error") (
        collect_more (enough errors) errors (e ∷ []) [] (n ∷ []) (some (error_object i))
          (λ j there. ground arith) closed below))

-- When the names of an error and its causes are of a known kind, so are those of the error that
-- `operation` throws for it, whatever the stage: the same text is shown; and the status is kept. Every
-- cause is one of the errors that there are.
pub operation_classified :
    (errors : List ErrorObject) (stage kind : String) (i : ℕ) (names : List String)
    → all_below (length errors) errors ≡ true
    → ltb i (length errors) ≡ true
    → collect_names (enough errors) errors [] (some (error_object i)) ≡ some names
    → class_text names ≡ some kind
    → let e = wrapped stage kind i (error_at errors i).status in
      (operation stage errors (error_object i) ≡ some (errors ++ (e ∷ []), length errors))
      × (error_text (errors ++ (e ∷ [])) (error_object (length errors)) ≡ some kind)
unfolding operation error_text
operation_classified errors stage kind i names closed below collected known =
    let status = (error_at errors i).status in
    (
      rw (collected, known) refl,
      rw (names_of_wrapped errors stage kind i status closed below, collected)
          (rw (class_text-Error names, known) refl),
    )
