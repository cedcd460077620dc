-- ===== src/Client/Invite/Codes.antt =====
-- The codes that `randomInvite` of frontend/src/client/app.ts gives.
use dawn_mesh_server.Prelude.{
  ℕ, ◌+◌, ◌*◌, ◌/◌, ◌%◌, ◌≤◌, ◌<◌, ◌≡◌, refl, ap, arith, true, false, List, [], ◌∷◌, some, leb,
}
use dawn_mesh_server.Crypto.Base64.{Text}
use dawn_mesh_server.Client.Invite.{limit, digits_before, to_text, pad_start, random_invite}

-- Four decimal digits.
abbrev pub four_digits : ℕ → Text
four_digits n = (48 + n / 1000) ∷ (48 + n / 100 % 10) ∷ (48 + n / 10 % 10) ∷ (48 + n % 10) ∷ []

padded : (n : ℕ) → n < 10000 → pad_start 4 (to_text n) ≡ four_digits n
unfolding pad_start to_text digits_before
padded n h = ground arith

-- Every code comes from as many words: of the words below 2^32 the accepted ones are 429496 for each
-- code of four digits, in order of their quotient by 10000, and any other word is drawn again.
pub random_invite_uniform :
    (code quotient other : ℕ) (draws : List ℕ)
    → code < 10000
    → quotient < 429496
    → 4294960000 ≤ other
    → (random_invite ((quotient * 10000 + code) ∷ draws) ≡ some (four_digits code))
      × (random_invite (other ∷ draws) ≡ random_invite draws)
unfolding random_invite
random_invite_uniform code quotient other draws h q o =
    let value = quotient * 10000 + code in
    let accepted : leb limit value ≡ false = ground arith in
    let rejected : leb limit other ≡ true = ground arith in
    let rest : value % 10000 ≡ code = omega arith in
    (rw accepted (rw rest (ap some (padded code h))), rw rejected refl)
