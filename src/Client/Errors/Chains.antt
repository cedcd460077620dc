-- ===== src/Client/Errors/Chains.antt =====
-- That the loops over causes in frontend/src/client/app.ts come to an end.
use dawn_mesh_server.Prelude.{
  ℕ, zero, suc, ◌+◌, ◌≤◌, ◌≡◌, refl, ◌∙◌, arith, Bool, true, false, List, [], ◌∷◌, Option, none,
  some, String, if◌then◌else◌, length, ltb, ltb→le, Bool-cases, inl, inr,
}
use dawn_mesh_server.Prelude.Maps.{string_eq, number_eq, contains}
use dawn_mesh_server.Client.Errors.{
  Value, error_object, other, ErrorObject, error_at, is_self, add_name, collect_names, enough,
  own_text, text_for, error_text,
}

-- How many of the first `n` errors are not visited.
unvisited : ℕ → List ℕ → ℕ
unvisited zero visited = 0
unvisited (suc n) visited = (if contains n visited then 0 else 1) + unvisited n visited

unvisited-le : (n : ℕ) (visited : List ℕ) → unvisited n visited ≤ n
unfolding unvisited
unvisited-le zero visited = omega arith
unvisited-le (suc n) visited = ground (arith, unvisited-le n visited)

-- Another one visited leaves one less, or as many if it is not among them.
unvisited-cons :
    (n i : ℕ) (visited : List ℕ)
    → contains i visited ≡ false
    → unvisited n visited ≡ unvisited n (i ∷ visited) + (if ltb i n then 1 else 0)
unfolding unvisited
unvisited-cons zero i visited new = ground arith
unvisited-cons (suc n) i visited new = ground (arith, unvisited-cons n i visited new)

unvisited-below :
    (n i : ℕ) (visited : List ℕ)
    → contains i visited ≡ false
    → ltb i n ≡ true
    → unvisited n visited ≡ unvisited n (i ∷ visited) + 1
unvisited-below n i visited new below = unvisited-cons n i visited new ∙ rw below refl

-- An error that is not there has no cause.
pub error_at_end :
    (errors : List ErrorObject) (i : ℕ) → length errors ≤ i → (error_at errors i).cause ≡ none
error_at_end [] i h = refl
error_at_end (e ∷ errors) zero h = absurd (omega arith)
error_at_end (e ∷ errors) (suc i) h = error_at_end errors i (omega arith)

abbrev pub is_found {ℓ} : {A : Type ℓ} → Option A → Bool
is_found none = false
is_found (some a) = true

add_name-found :
    (name : String) (names : Option (List String)) → is_found (add_name name names) ≡ is_found names
add_name-found name none = refl
add_name-found name (some names) = refl

at_end_found :
    (fuel : ℕ) (errors : List ErrorObject) (visited : List ℕ)
    → 1 ≤ fuel
    → is_found (collect_names fuel errors visited none) ≡ true
unfolding collect_names
at_end_found zero errors visited h = absurd (omega arith)
at_end_found (suc fuel) errors visited h = refl

-- Fuel for two more turns than there are errors not visited is enough.
collect_found :
    (fuel : ℕ) (errors : List ErrorObject) (visited : List ℕ) (current : Option Value)
    → unvisited (length errors) visited + 2 ≤ fuel
    → is_found (collect_names fuel errors visited current) ≡ true
unfolding collect_names
collect_found zero errors visited current h = absurd (omega arith)
collect_found (suc fuel) errors visited none h = refl
collect_found (suc fuel) errors visited (some (other text)) h = refl
collect_found (suc fuel) errors visited (some (error_object i)) h =
    elim (Bool-cases (contains i visited)) [
      | inl old ↦ rw old refl
      | inr new ↦ rw new (
          add_name-found (error_at errors i).name (
            collect_names fuel errors (i ∷ visited)
              (if is_self i (error_at errors i).cause then none else (error_at errors i).cause))
          ∙ elim (Bool-cases (ltb i (length errors))) [
            | inl there ↦
                collect_found fuel errors (i ∷ visited)
                  (if is_self i (error_at errors i).cause then none else (error_at errors i).cause)
                  (omega (arith, unvisited-below (length errors) i visited new there))
            | inr missing ↦
                rw (error_at_end errors i (ltb→le i (length errors) missing))
                  (at_end_found fuel errors (i ∷ visited) (omega arith))
          ])
    ]

-- From any thrown value the loop of `errorText` ends, though the errors may be one another's causes,
-- or their own: as many turns as there are errors, and two, are enough.
pub error_text_ends :
    (errors : List ErrorObject) (value : Value) → is_found (error_text errors value) ≡ true
unfolding error_text
error_text_ends errors value =
    text_found (collect_names (enough errors) errors [] (some value)) (own_text errors value) (
      collect_found (enough errors) errors [] (some value)
        (omega (arith, unvisited-le (length errors) [])))
  where
    text_found :
        (names : Option (List String)) (own : String)
        → is_found names ≡ true
        → is_found (text_for names own) ≡ true
    text_found none own h = h
    text_found (some names) own h = refl
