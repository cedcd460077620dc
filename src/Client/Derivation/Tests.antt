-- ===== src/Client/Derivation/Tests.antt =====
-- A derivation that the worker answers and one that is cancelled, and the theorems at inputs.
use dawn_mesh_server.Prelude.{◌≡◌, refl, true, false, [], ◌∷◌, ◌++◌, none, some, replicate, ok, err}
use dawn_mesh_server.Prelude.Maps.{string_eq}
use dawn_mesh_server.Crypto.Base64.{Text}
use dawn_mesh_server.Crypto.Chat.Tests.{plain, plain-IsStandard}
use dawn_mesh_server.Crypto.Scrypt.{Credentials, internet_invite_credentials, is_code}
use dawn_mesh_server.Crypto.Scrypt.Output.{internet_invite_credentials_sized}
use dawn_mesh_server.Client.Derivation.{
  cancelled, finish, derive_invite_credentials, replies, times_out, aborts, act, run, on_request,
}
use dawn_mesh_server.Client.Derivation.Settling.{is_whole, run_whole, reply_stands}

abbrev code : Text
code = 48 ∷ 49 ∷ 50 ∷ 51 ∷ []

code_valid : is_code code ≡ true
unfolding is_code
code_valid = refl

keys : Credentials
keys =
    (internet_invite_credentials_sized plain plain-IsStandard code (replicate 16 7) code_valid
      refl).0

derived : internet_invite_credentials plain code (replicate 16 7) ≡ ok keys
unfolding keys
derived =
    (internet_invite_credentials_sized plain plain-IsStandard code (replicate 16 7) code_valid
      refl).2

cancels :
    (run (aborts ∷ times_out ∷ []) (derive_invite_credentials (some false) none)).settled
    ≡ some (err cancelled)
unfolding run act finish derive_invite_credentials
cancels = refl

run_whole_example :
    is_whole (run (aborts ∷ times_out ∷ []) (derive_invite_credentials (some false) none)) ≡ true
run_whole_example = run_whole (some false) none (aborts ∷ times_out ∷ [])

-- The signal is not given, so its step is idle.
unsettled : (run (aborts ∷ []) (derive_invite_credentials none none)).settled ≡ none
unfolding run act derive_invite_credentials
unsettled = refl

reply_stands_example :
    (run
      ((aborts ∷ []) ++ (replies (on_request plain code (replicate 16 7)) ∷ times_out ∷ []))
      (derive_invite_credentials none none)).settled
    ≡ some (ok keys)
reply_stands_example =
    reply_stands plain code (replicate 16 7) keys none none (aborts ∷ []) (times_out ∷ []) derived
      unsettled
