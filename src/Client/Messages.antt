-- ===== src/Client/Messages.antt =====
-- The chat of a room: `receiveChat` and `sendChat` of frontend/src/client/app.ts, over `ChatCipher`.
-- `JSON` and the text codecs of the browser are the parameter `Codec`.
pub mod Delivery
pub mod Validity
mod Tests
use dawn_mesh_server.Prelude.{
  ℕ, ◌-◌, Bool, true, false, ◌&&◌, ◌||◌, not, List, [], ◌∷◌, ◌++◌, Option, none, some,
  if◌then◌else◌, length, drop, leb, ltb, Result, ok, err, Failure, failure, ◌>>=◌, ◌>>◌, throw_if,
  String,
}
use dawn_mesh_server.Prelude.Maps.{◌===◌, codes_eq}
use dawn_mesh_server.Prelude.Int.{ℤ, pos, negsuc}
use dawn_mesh_server.Crypto.Bytes.{Bytes}
use dawn_mesh_server.Crypto.Base64.{Text}
use dawn_mesh_server.Crypto.Platform.{Subtle}
use dawn_mesh_server.Crypto.Chat.{ChatCipher, encrypt, decrypt}
use dawn_mesh_server.Client.Presence.{trim_start, trim_end}

-- `sender_name` is not checked: it is there only if it is a text.
pub record ChatMessage : Type 0 where
  pub id : Text
  pub sender_id : Text
  pub sender_name : Option Text
  pub text : Text
  pub sent_at : ℤ
  pub mine : Bool

-- The fields of a parsed object: texts where they are, and `sentAt` where it is a whole number.
pub record Payload : Type 0 where
  pub id : Option Text
  pub sender_id : Option Text
  pub sender_name : Option Text
  pub text : Option Text
  pub sent_at : Option ℤ

-- `utf8.encode`, `utf8.encode(JSON.stringify(…))`, and `JSON.parse(decoder.decode(…))`, which may
-- throw.
pub record Codec : Type 0 where
  pub encode : Text → Bytes
  pub write : Payload → Bytes
  pub read : Bytes → Result Payload

-- The fields of `ActiveRoom` that the chat uses, and `state.nickname`.
pub record Chat : Type 0 where
  pub chat_cipher : ChatCipher
  pub member_id : Text
  pub nickname : Text
  pub messages : List ChatMessage

-- "dawnmesh.chat.v1" and a zero.
abbrev pub chat_domain : Text
chat_domain =
    100 ∷ 97 ∷ 119 ∷ 110 ∷ 109 ∷ 101 ∷ 115 ∷ 104 ∷ 46 ∷ 99 ∷ 104 ∷ 97 ∷ 116 ∷ 46 ∷ 118 ∷ 49 ∷ 0 ∷ []

-- 2^53 - 1.
abbrev pub max_safe : ℕ
max_safe = 9007199254740991

-- `Number.isSafeInteger`.
unfoldable pub is_safe_integer : ℤ → Bool
is_safe_integer (pos n) = leb n max_safe
is_safe_integer (negsuc n) = ltb n max_safe

abbrev pub is_empty : Text → Bool
is_empty [] = true
is_empty (c ∷ text) = false

abbrev pub invalid : String
invalid = "invalid encrypted chat payload"

abbrev pub require {ℓ} : {A : Type ℓ} → Option A → Result A
require none = err (failure invalid)
require (some a) = ok a

module _ (codec : Codec) where
  unfoldable pub is_too_long : Text → Bool
  is_too_long text = ltb 1000 (length (codec.encode text))

  unfoldable pub is_valid : Text → Text → Text → Text → ℤ → Bool
  is_valid sender_id id sender text sent_at =
      sender === sender_id
      && leb (length id) 160
      && not (is_too_long text)
      && is_safe_integer sent_at

  -- The message of a payload whose fields are there and valid.
  unfoldable pub check_payload : Text → Text → Payload → Result ChatMessage
  check_payload sender_id member_id payload = require payload.id >>= λ id.
      require payload.sender_id >>= λ sender. require payload.text >>= λ text.
      require payload.sent_at >>= λ sent_at.
      throw_if (not (is_valid sender_id id sender text sent_at)) invalid
      >> ok (record {
        id = id;
        sender_id = sender;
        sender_name = payload.sender_name;
        text = text;
        sent_at = sent_at;
        mine = sender_id === member_id;
      })

  abbrev pub aad_of : Text → Bytes
  aad_of sender_id = codec.encode (chat_domain ++ sender_id)

-- `messages.push(message)`, and then `shift` of the oldest beyond 100.
abbrev pub push : ChatMessage → List ChatMessage → List ChatMessage
push message messages = messages ++ (message ∷ [])

unfoldable pub push_shifted : ChatMessage → List ChatMessage → List ChatMessage
push_shifted message messages =
    let pushed = push message messages in if ltb 100 (length pushed) then drop 1 pushed else pushed

-- What `sendChat` writes: the identifier carries the time, the member and a random number.
abbrev pub payload_of : Text → Text → ℕ → Chat → Payload
payload_of id value now chat = record {
  id = some id;
  sender_id = some chat.member_id;
  sender_name = some chat.nickname;
  text = some value;
  sent_at = some (pos now);
}

abbrev pub own_message : Text → Text → ℕ → Chat → ChatMessage
own_message id value now chat = record {
  id = id;
  sender_id = chat.member_id;
  sender_name = some chat.nickname;
  text = value;
  sent_at = pos now;
  mine = true;
}

module _ (subtle : Subtle) (codec : Codec) where
  abbrev pub show_message : Chat → Result ChatMessage → Chat × Result (Unit {0})
  show_message chat (err cause) = (chat, err cause)
  show_message chat (ok message) =
      (record chat { messages = push_shifted message chat.messages }, ok tt)

  abbrev pub on_clear : Text → Chat → Result Bytes → Chat × Result (Unit {0})
  on_clear sender_id chat clear = show_message chat (
      clear >>= λ bytes.
      codec.read bytes >>= λ payload. check_payload codec sender_id chat.member_id payload)

  -- A packet of the participant `sender_id`.
  unfoldable pub receive_chat : Bytes → Text → Chat → Chat × Result (Unit {0})
  receive_chat packet sender_id chat =
      let decrypted = decrypt subtle chat.chat_cipher packet (aad_of codec sender_id) in
      if ltb (length packet) 29
      then (chat, ok tt)
      else on_clear sender_id (record chat { chat_cipher = decrypted.0 }) decrypted.1

  -- After the packet, which `publishData` sends or rejects.
  abbrev pub on_packet :
      ChatMessage → Result (Unit {0}) → Result Bytes → Chat → Chat × Result (Unit {0})
  on_packet message published (err cause) chat = (chat, err cause)
  on_packet message (err cause) (ok packet) chat = (chat, err cause)
  on_packet message (ok done) (ok packet) chat =
      (record chat { messages = push message chat.messages }, ok tt)

  unfoldable pub send_packet : Text → Text → ℕ → Chat → ChatCipher × Result Bytes
  send_packet id value now chat =
      encrypt subtle chat.chat_cipher (codec.write (payload_of id value now chat))
        (aad_of codec chat.member_id)

  unfoldable pub send_chat : Text → Text → ℕ → Result (Unit {0}) → Chat → Chat × Result (Unit {0})
  unfolding send_packet
  send_chat text id now published chat =
      let value = trim_end (trim_start text) in
      let sent = send_packet id value now chat in
      if is_empty value || is_too_long codec value
      then (chat, ok tt)
      else on_packet (own_message id value now chat) published sent.1
          (record chat { chat_cipher = sent.0 })
