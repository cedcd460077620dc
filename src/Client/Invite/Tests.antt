-- ===== src/Client/Invite/Tests.antt =====
-- A word that is drawn again and one that is taken, for `randomInvite` of
-- frontend/src/client/app.ts, and the theorem at an input.
use dawn_mesh_server.Prelude.{◌≡◌, refl, arith, [], ◌∷◌, some}
use dawn_mesh_server.Client.Invite.{random_invite, to_text, pad_start, digits_before}
use dawn_mesh_server.Client.Invite.Codes.{four_digits, random_invite_uniform}

random_invite_runs : random_invite (4294960000 ∷ 30042 ∷ []) ≡ some (48 ∷ 48 ∷ 52 ∷ 50 ∷ [])
unfolding random_invite to_text pad_start digits_before
random_invite_runs = refl

random_invite_uniform_example :
    (random_invite (30042 ∷ []) ≡ some (four_digits 42))
    × (random_invite (4294967295 ∷ []) ≡ random_invite [])
random_invite_uniform_example =
    random_invite_uniform 42 3 4294967295 [] (omega arith) (omega arith) (omega arith)
