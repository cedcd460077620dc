-- ===== src/Client/Messages/Delivery.antt =====
-- From `sendChat` of one member to `receiveChat` of another.
use dawn_mesh_server.Prelude.{
  ℕ, ◌≤◌, ◌<◌, ◌≡◌, refl, arith, Bool, true, false, not, List, [], ◌∷◌, ◌++◌, some, if◌then◌else◌,
  length, drop, ltb, ok, le→ltb, length-append,
}
use dawn_mesh_server.Prelude.Maps.{◌===◌, codes_eq, ===_refl, put}
use dawn_mesh_server.Prelude.Int.{pos}
use dawn_mesh_server.Crypto.Bytes.{Bytes}
use dawn_mesh_server.Crypto.Base64.{Text, base64}
use dawn_mesh_server.Crypto.Platform.{Subtle, IsStandard}
use dawn_mesh_server.Crypto.Chat.{ChatCipher}
use dawn_mesh_server.Crypto.Chat.Delivery.{IsExpecting, decrypt-encrypt, encrypt_long}
use dawn_mesh_server.Client.Presence.{trim_start, trim_end}
use dawn_mesh_server.Client.Messages.{
  ChatMessage, Payload, Codec, Chat, is_safe_integer, max_safe, is_too_long, is_valid,
  check_payload, push_shifted, receive_chat, payload_of, send_packet, send_chat, aad_of, is_empty,
}

-- What the codecs promise: what is written is read again, and is not empty.
pub record IsFaithful (codec : Codec) : Type 0 where
  pub read-write : (payload : Payload) → codec.read (codec.write payload) ≡ ok payload
  pub write_nonempty : (payload : Payload) → 0 < length (codec.write payload)

-- The message that the sender's text stands for, as the member `viewer` is to see it.
pub authored : Text → Text → ℕ → Chat → Text → ChatMessage
authored id value now sender viewer = record {
  id = id;
  sender_id = sender.member_id;
  sender_name = some sender.nickname;
  text = value;
  sent_at = pos now;
  mine = sender.member_id === viewer;
}

-- At 100 messages the oldest makes room.
pub room_made : List ChatMessage → List ChatMessage
room_made messages = if ltb (length messages) 100 then messages else drop 1 messages

push_shifted_lem :
    (message : ChatMessage) (messages : List ChatMessage)
    → push_shifted message messages ≡ room_made messages ++ (message ∷ [])
unfolding push_shifted room_made
push_shifted_lem message [] = refl
push_shifted_lem message (first ∷ messages) =
    by_size (ltb 100 (length (first ∷ (messages ++ (message ∷ [])))))
      (ltb (length (first ∷ messages)) 100) (ground (arith, length-append messages (message ∷ [])))
  where
    by_size :
        (is_over is_under : Bool)
        → is_over ≡ not is_under
        → (if is_over then messages ++ (message ∷ []) else first ∷ (messages ++ (message ∷ [])))
          ≡ (if is_under then first ∷ messages else messages) ++ (message ∷ [])
    by_size true true h = absurd (ground arith)
    by_size true false h = refl
    by_size false true h = refl
    by_size false false h = absurd (ground arith)

module _ (codec : Codec) where
  own_valid :
      (id value : Text) (now : ℕ) (sender : Text)
      → length id ≤ 160
      → now ≤ max_safe
      → is_too_long codec value ≡ false
      → is_valid codec sender id sender value (pos now) ≡ true
  unfolding is_valid is_safe_integer
  own_valid id value now sender short safe fits = ground (arith, ===_refl sender)

  -- The payload that a member writes passes the receiver's checks.
  check_own :
      (id value : Text) (now : ℕ) (sender receiver : Chat)
      → length id ≤ 160
      → now ≤ max_safe
      → is_too_long codec value ≡ false
      → check_payload codec sender.member_id receiver.member_id (payload_of id value now sender)
        ≡ ok (authored id value now sender receiver.member_id)
  unfolding check_payload authored
  check_own id value now sender receiver short safe fits =
      rw (own_valid id value now sender.member_id short safe fits) refl

module _ (subtle : Subtle) (standard : IsStandard subtle) (codec : Codec)
    (faithful : IsFaithful codec) where
  received :
      (id value : Text) (now : ℕ) (sender receiver : Chat) (after : ChatCipher) (packet : Bytes)
      → length sender.chat_cipher.prefix ≡ 8
      → IsExpecting receiver.chat_cipher sender.chat_cipher
      → length id ≤ 160
      → now ≤ max_safe
      → is_too_long codec value ≡ false
      → send_packet subtle codec id value now sender ≡ (after, ok packet)
      → receive_chat subtle codec packet sender.member_id receiver ≡ (
        record receiver {
          chat_cipher = record receiver.chat_cipher {
            seen =
                put
                  (base64 sender.chat_cipher.prefix)
                  sender.chat_cipher.counter
                  receiver.chat_cipher.seen;
          };
          messages =
              room_made receiver.messages ++ (authored id value now sender receiver.member_id ∷ []);
        },
        ok tt,
      )
  unfolding receive_chat send_packet
  received id value now sender receiver after packet h expecting short safe fits sent =
      let payload = payload_of id value now sender in
      let nonempty = faithful.write_nonempty payload in
      let aad = aad_of codec sender.member_id in
      let clear =
        decrypt-encrypt subtle standard receiver.chat_cipher sender.chat_cipher after
          (codec.write payload) aad packet h nonempty expecting sent in
      let long =
        encrypt_long subtle standard sender.chat_cipher after (codec.write payload) aad packet h
          nonempty sent in
      rw (
        le→ltb (length packet) 29 long,
        clear,
        faithful.read-write payload,
        check_own codec id value now sender receiver short safe fits,
        push_shifted_lem (authored id value now sender receiver.member_id) receiver.messages,
      )

  -- What a member sends, cut of the spaces at its ends, another member of the room receives: both
  -- lists keep their messages and end in the new one, with the sender as its author, except that the
  -- receiver's oldest makes room once there are 100. The text is not blank and has at most 1000 bytes,
  -- the identifier at most 160 code units, and the time is a safe integer; the sender's prefix has 8
  -- bytes; the receiver has the sender's key, room for it and has not accepted its next counter; the
  -- packet could be made and is published, and the primitives and codecs are standard.
  pub send_receive :
      (text id : Text) (now : ℕ) (sender receiver : Chat) (after : ChatCipher) (packet : Bytes)
      → length sender.chat_cipher.prefix ≡ 8
      → IsExpecting receiver.chat_cipher sender.chat_cipher
      → length id ≤ 160
      → now ≤ max_safe
      → is_empty (trim_end (trim_start text)) ≡ false
      → is_too_long codec (trim_end (trim_start text)) ≡ false
      → send_packet subtle codec id (trim_end (trim_start text)) now sender ≡ (after, ok packet)
      → let value = trim_end (trim_start text) in
        let sends = send_chat subtle codec text id now (ok tt) sender in
        let receives = receive_chat subtle codec packet sender.member_id receiver in
        (sends.1 ≡ ok tt)
        × (sends.0.messages
            ≡ sender.messages ++ (authored id value now sender sender.member_id ∷ []))
        × (receives.1 ≡ ok tt)
        × (receives.0.messages
            ≡ room_made receiver.messages ++ (authored id value now sender receiver.member_id ∷ []))
  unfolding send_chat authored
  send_receive text id now sender receiver after packet h expecting short safe written fits sent =
      let value = trim_end (trim_start text) in
      let got =
        received id value now sender receiver after packet h expecting short safe fits sent in
      rw (written, fits, sent, got, ===_refl sender.member_id) (refl, refl, refl, refl)
