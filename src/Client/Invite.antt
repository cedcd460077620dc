-- ===== src/Client/Invite.antt =====
-- Invitation codes in frontend/src/client/app.ts: `randomInvite`.
pub mod Codes
mod Tests
use dawn_mesh_server.Prelude.{
  ℕ, zero, suc, ◌+◌, ◌-◌, ◌*◌, ◌/◌, ◌%◌, Bool, true, false, List, [], ◌∷◌, ◌++◌, Option, none, some,
  length, replicate, ltb, leb, if◌then◌else◌,
}
use dawn_mesh_server.Crypto.Base64.{Text}

-- `Math.floor(0x100000000 / 10000) * 10000`.
abbrev pub limit : ℕ
limit = 0x100000000 / 10000 * 10000

-- The digits of a number, on fuel, before those that are there.
unfoldable pub digits_before : ℕ → ℕ → Text → Text
digits_before zero n text = text
digits_before (suc fuel) n text =
    let shown = (48 + n % 10) ∷ text in
    let rest = digits_before fuel (n / 10) shown in if ltb n 10 then shown else rest

-- `String(n)`, of a number below 10000.
pub to_text : ℕ → Text
unfolding digits_before
to_text n = digits_before 4 n []

-- `padStart(size, "0")`.
pub pad_start : ℕ → Text → Text
pad_start size text = replicate (size - length text) 48 ++ text

-- Over the words that `getRandomValues` draws; `none` if they run out.
unfoldable pub random_invite : List ℕ → Option Text
unfolding to_text pad_start
random_invite [] = none
random_invite (value ∷ draws) =
    if leb limit value then random_invite draws else some (pad_start 4 (to_text (value % 10000)))
