-- ===== src/Client/Errors/Endless.antt =====
-- That the loop of `mediaFailureText` in frontend/src/client/app.ts ends where every error has a message.
use dawn_mesh_server.Prelude.{
  ℕ, zero, suc, ◌+◌, ◌≤◌, ◌≡◌, refl, arith, Bool, true, false, ◌&&◌, not, List, [], ◌∷◌, ◌++◌,
  Option, none, some, String, if◌then◌else◌, length, ltb, ltb→le, Bool-cases, inl, inr,
}
use dawn_mesh_server.Prelude.Maps.{◌===◌, string_eq, contains, contains-append, ===_refl}
use dawn_mesh_server.Client.Errors.{
  Value, error_object, other, ErrorObject, request_error, error_at, enough,
}
use dawn_mesh_server.Client.Errors.Chains.{is_found, error_at_end}
use dawn_mesh_server.Client.Errors.Media.{
  Collected, push_text, note, collect_parts, failure_text, map_text, nothing, media_failure_text,
}

-- How many errors have a message that is not among the parts.
unseen : List ErrorObject → List String → ℕ
unseen [] parts = 0
unseen (e ∷ errors) parts = (if contains e.message parts then 0 else 1) + unseen errors parts

unseen-le : (errors : List ErrorObject) (parts : List String) → unseen errors parts ≤ length errors
unfolding unseen
unseen-le [] parts = omega arith
unseen-le (e ∷ errors) parts = ground (arith, unseen-le errors parts)

unseen-push :
    (errors : List ErrorObject) (parts : List String) (m : String)
    → unseen errors (parts ++ (m ∷ [])) ≤ unseen errors parts
unfolding unseen
unseen-push [] parts m = omega arith
unseen-push (e ∷ errors) parts m =
    ground (arith, contains-append e.message parts (m ∷ []), unseen-push errors parts m)

-- An error whose message is new leaves one less unseen.
unseen-error_at :
    (errors : List ErrorObject) (parts : List String) (i : ℕ)
    → ltb i (length errors) ≡ true
    → contains (error_at errors i).message parts ≡ false
    → unseen errors (parts ++ ((error_at errors i).message ∷ [])) + 1 ≤ unseen errors parts
unfolding unseen
unseen-error_at [] parts i h new = absurd (ground arith)
unseen-error_at (e ∷ errors) parts zero h new = ground (
  arith,
  contains-append e.message parts (e.message ∷ []),
  ===_refl e.message,
  unseen-push errors parts e.message,
)
unseen-error_at (e ∷ errors) parts (suc i) h new = ground (
  arith,
  contains-append e.message parts ((error_at errors i).message ∷ []),
  unseen-error_at errors parts i,
)

-- Every error has a message.
unfoldable pub all_told : List ErrorObject → Bool
all_told [] = true
all_told (e ∷ errors) = not (e.message === "") && all_told errors

told_at :
    (errors : List ErrorObject) (i : ℕ)
    → all_told errors ≡ true
    → ltb i (length errors) ≡ true
    → ((error_at errors i).message === "") ≡ false
unfolding all_told
told_at [] i told h = absurd (ground arith)
told_at (e ∷ errors) zero told h = ground arith
told_at (e ∷ errors) (suc i) told h = ground (arith, told_at errors i)

end_found :
    (fuel : ℕ) (errors : List ErrorObject) (c : Collected)
    → 1 ≤ fuel
    → is_found (collect_parts fuel errors c none) ≡ true
unfolding collect_parts
end_found zero errors c h = absurd (omega arith)
end_found (suc fuel) errors c h = refl

parts_found :
    (fuel : ℕ) (errors : List ErrorObject) (c : Collected) (current : Option Value)
    → all_told errors ≡ true
    → unseen errors c.parts + 2 ≤ fuel
    → is_found (collect_parts fuel errors c current) ≡ true
unfolding collect_parts
parts_found zero errors c current told h = absurd (omega arith)
parts_found (suc fuel) errors c none told h = refl
parts_found (suc fuel) errors c (some (other text)) told h =
    elim (Bool-cases (contains text c.parts)) [
      | inl old ↦ rw old refl
      | inr new ↦ rw new (end_found fuel errors (note (request_error text) c) (omega arith))
    ]
parts_found (suc fuel) errors c (some (error_object i)) told h =
    let e = error_at errors i in
    elim (Bool-cases (contains e.message c.parts)) [
      | inl old ↦ rw old refl
      | inr new ↦ rw new (elim (Bool-cases (ltb i (length errors))) [
        | inl there ↦
            parts_found fuel errors (note e c) e.cause told
              (omega (arith, fewer errors c i told there new))
        | inr missing ↦
            rw (error_at_end errors i (ltb→le i (length errors) missing))
              (end_found fuel errors (note e c) (omega arith))
      ])
    ]
  where
    fewer :
        (errors : List ErrorObject) (c : Collected) (i : ℕ)
        → all_told errors ≡ true
        → ltb i (length errors) ≡ true
        → contains (error_at errors i).message c.parts ≡ false
        → unseen errors (push_text (error_at errors i).message c.parts) + 1 ≤ unseen errors c.parts
    fewer errors c i told there new =
        rw (told_at errors i told there) (unseen-error_at errors c.parts i there new)

-- Where every error has a message, the loop of `mediaFailureText` ends, though the errors may be one
-- another's causes, or their own.
pub media_failure_text_ends :
    (lower : String → String) (has_media_connect : String → Bool) (errors : List ErrorObject)
    (value : Value)
    → all_told errors ≡ true
    → is_found (media_failure_text lower has_media_connect errors value) ≡ true
unfolding media_failure_text
media_failure_text_ends lower has_media_connect errors value told =
    text_found (collect_parts (enough errors) errors nothing (some value)) (
      parts_found (enough errors) errors nothing (some value) told
        (omega (arith, unseen-le errors [])))
  where
    text_found :
        (c : Option Collected)
        → is_found c ≡ true
        → is_found (map_text (failure_text lower has_media_connect) c) ≡ true
    text_found none h = h
    text_found (some c) h = refl
