-- ===== src/Client/Admission/Tests.antt =====
-- A host's offer and a guest with its code, and the theorem at an input.
use dawn_mesh_server.Prelude.{
  ◌≡◌, refl, arith, true, false, List, [], ◌∷◌, none, some, replicate, ok,
}
use dawn_mesh_server.Prelude.Maps.{string_eq}
use dawn_mesh_server.Crypto.Base64.{Text, base64}
use dawn_mesh_server.Crypto.Chat.Tests.{plain, plain-IsStandard}
use dawn_mesh_server.Crypto.Hex.{is_space}
use dawn_mesh_server.Crypto.Scrypt.{Credentials, internet_invite_credentials, is_code}
use dawn_mesh_server.Crypto.Scrypt.Output.{internet_invite_credentials_sized}
use dawn_mesh_server.Client.Presence.{trim_start, trim_end}
use dawn_mesh_server.Client.Admission.{
  RoomOffer, Draws, RoomSummary, find_salt, offer_of, create_cipher, room_cipher, create_room,
  complete_admission,
}
use dawn_mesh_server.Client.Admission.Wrapping.{admission_lem}

-- "0123", and with a space.
abbrev code : Text
code = 48 ∷ 49 ∷ 50 ∷ 51 ∷ []

abbrev draws : Draws
draws = record {
  room_key = replicate 32 5;
  salt = replicate 16 7;
  nonce = replicate 12 1;
  prefix = replicate 8 2;
}

code_valid : is_code code ≡ true
unfolding is_code
code_valid = refl

keys : Credentials
keys =
    (internet_invite_credentials_sized plain plain-IsStandard code (replicate 16 7) code_valid
      refl).0

derived : internet_invite_credentials plain code (replicate 16 7) ≡ ok keys
unfolding keys
derived =
    (internet_invite_credentials_sized plain plain-IsStandard code (replicate 16 7) code_valid
      refl).2

code_runs : trim_end (trim_start code) ≡ code
unfolding trim_end trim_start is_space
code_runs = refl

spaced_runs : trim_end (trim_start (32 ∷ code)) ≡ trim_end (trim_start code)
unfolding trim_end trim_start is_space
spaced_runs = refl

offer : RoomOffer
offer = offer_of plain draws false keys

created :
    create_room plain code false draws
    ≡ ok (offer, create_cipher plain (replicate 32 5) (replicate 8 2))
unfolding create_room offer
created = rw (code_runs, derived) refl

abbrev rooms : List RoomSummary
rooms = record { id = "r"; join_salt = some (base64 (replicate 16 7)) } ∷ []

found : find_salt "r" rooms ≡ some offer.join_salt
unfolding find_salt offer offer_of base64
found = refl

admission_lem_example :
    (complete_admission plain "r" (32 ∷ code) rooms (λ credential. ok offer.wrapped_room_key)
      ≡ ok (replicate 32 5))
    × ((room_cipher plain none (replicate 32 5) (replicate 8 3)).key
        ≡ (room_cipher plain
            (some (create_cipher plain (replicate 32 5) (replicate 8 2)))
            (replicate 32 5)
            (replicate 8 2)).key)
admission_lem_example =
    admission_lem plain plain-IsStandard "r" code (32 ∷ code) false draws offer
      (create_cipher plain (replicate 32 5) (replicate 8 2)) rooms
      (λ credential. ok offer.wrapped_room_key) (replicate 8 3) refl (omega arith) (omega arith)
      refl (omega arith) created spaced_runs found refl
