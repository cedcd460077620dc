-- ===== src/Client/Admission.antt =====
-- How the room key travels with an invitation: `createRoom` and `completeAdmission` of
-- frontend/src/client/app.ts. The credentials are derived as the worker does; the server's answers
-- are arguments.
pub mod Wrapping
mod Tests
use dawn_mesh_server.Prelude.{
  ℕ, Bool, true, false, not, List, [], ◌∷◌, Option, none, some, String, if◌then◌else◌, ◌==◌, length,
  Result, ok, err, Failure, failure, ◌>>=◌, ◌>>◌, throw_if,
}
use dawn_mesh_server.Prelude.Maps.{◌===◌, string_eq}
use dawn_mesh_server.Crypto.Bytes.{Bytes}
use dawn_mesh_server.Crypto.Base64.{Text, base64, base64_url, from_base64, media_key}
use dawn_mesh_server.Crypto.Platform.{Subtle}
use dawn_mesh_server.Crypto.Chat.{ChatCipher, new_cipher, aes_encrypt, aes_decrypt}
use dawn_mesh_server.Crypto.Scrypt.{Credentials, internet_invite_credentials}
use dawn_mesh_server.Crypto.Spake2.{ascii, dawn_hkdf}
use dawn_mesh_server.Client.Presence.{trim_start, trim_end}

-- The keys in the body of `POST /api/v1/rooms`.
pub record RoomOffer : Type 0 where
  pub join_salt : Text
  pub join_credential : Text
  pub wrapped_room_key : Text
  pub monitoring_key : Option Text

-- What `getRandomValues` draws for a room, for the nonce of the wrapping and for the chat's prefix.
pub record Draws : Type 0 where
  pub room_key : Bytes
  pub salt : Bytes
  pub nonce : Bytes
  pub prefix : Bytes

pub record RoomSummary : Type 0 where
  pub id : String
  pub join_salt : Option Text

-- An empty text is none.
abbrev pub if_written : Option Text → Option Text
if_written (some []) = none
if_written salt = salt

-- `rooms.find(r => r.id === roomId)?.joinSalt`.
unfoldable pub find_salt : String → List RoomSummary → Option Text
find_salt room_id [] = none
find_salt room_id (room ∷ rooms) =
    if room.id === room_id then if_written room.join_salt else find_salt room_id rooms

abbrev pub require_salt : Option Text → Result Text
require_salt none = err (failure "请升级服务端并重新创建房间")
require_salt (some salt) = ok salt

module _ (subtle : Subtle) where
  -- `ChatCipher.create`, with the 8 random bytes of the prefix.
  unfoldable pub create_cipher : Bytes → Bytes → ChatCipher
  unfolding dawn_hkdf
  create_cipher room_key prefix =
      new_cipher (dawn_hkdf subtle room_key (ascii "DawnMesh internet chat v1")) prefix

  -- The cipher that `enterRoom` takes: the one of `createRoom`, or a new one.
  abbrev pub room_cipher : Option ChatCipher → Bytes → Bytes → ChatCipher
  room_cipher (some cipher) room_key prefix = cipher
  room_cipher none room_key prefix = create_cipher room_key prefix

  unfoldable pub offer_of : Draws → Bool → Credentials → RoomOffer
  offer_of draws allows_monitoring keys = record {
    join_salt = base64 draws.salt;
    join_credential = keys.credential;
    wrapped_room_key =
        base64 (aes_encrypt subtle keys.wrapping_key draws.room_key keys.aad draws.nonce);
    monitoring_key =
        if allows_monitoring then some (media_key (base64_url draws.room_key)) else none;
  }

  -- `createRoom` up to its request.
  unfoldable pub create_room : Text → Bool → Draws → Result (RoomOffer × ChatCipher)
  unfolding offer_of create_cipher
  create_room input allows_monitoring draws =
      internet_invite_credentials subtle (trim_end (trim_start input)) draws.salt >>= λ keys.
      ok (offer_of draws allows_monitoring keys, create_cipher draws.room_key draws.prefix)

  -- `completeAdmission`: `join` answers the request with a wrapped room key.
  unfoldable pub complete_admission :
      String → Text → List RoomSummary → (Text → Result Text) → Result Bytes
  complete_admission room_id invite_code rooms join =
      require_salt (find_salt room_id rooms) >>= λ join_salt. from_base64 join_salt >>= λ salt.
      internet_invite_credentials subtle (trim_end (trim_start invite_code)) salt >>= λ keys.
      join keys.credential >>= λ wrapped. from_base64 wrapped >>= λ packet.
      aes_decrypt subtle keys.wrapping_key packet keys.aad >>= λ room_key.
      throw_if (not (length room_key == 32)) "房间密钥无效" >> ok room_key
