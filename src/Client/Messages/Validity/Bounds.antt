-- ===== src/Client/Messages/Validity/Bounds.antt =====
-- Over any packets and texts, the list of messages of frontend/src/client/app.ts is sound and bounded.
use native.Mathlib.Nat.{add-zero, add-suc, suc-add}
use dawn_mesh_server.Prelude.{
  ℕ, suc, ◌+◌, ◌≤◌, ◌≡◌, refl, ◌∙◌, arith, true, false, ◌||◌, List, [], ◌∷◌, if◌then◌else◌, length,
  length-append, length-drop, ltb, Result, ok, err, ◌>>=◌, subst, Bool-cases, inl, inr, >>=-eq-ok,
}
use dawn_mesh_server.Prelude.Maps.{codes_eq, ===_refl}
use dawn_mesh_server.Crypto.Bytes.{Bytes}
use dawn_mesh_server.Crypto.Base64.{Text}
use dawn_mesh_server.Crypto.Platform.{Subtle}
use dawn_mesh_server.Crypto.Chat.{decrypt}
use dawn_mesh_server.Client.Presence.{trim_start, trim_end}
use dawn_mesh_server.Client.Messages.{
  ChatMessage, Codec, Chat, is_too_long, check_payload, push_shifted, push, aad_of, receive_chat,
  own_message, send_packet, send_chat, show_message, on_clear, on_packet, is_empty,
}
use dawn_mesh_server.Client.Messages.Validity.{
  Action, receives, sends, count_sends, is_sound, all_sound, sound-push, sound-push_shifted,
  checked_sound,
}

-- The list is sound, and its length is at most `limit`.
IsBounded : Codec → ℕ → Text → Chat → Type 0
IsBounded codec limit member_id chat =
    (all_sound codec member_id chat.messages ≡ true)
    × (length chat.messages ≤ limit)
    × (chat.member_id ≡ member_id)

length-push_shifted :
    (message : ChatMessage) (messages : List ChatMessage) (limit : ℕ)
    → length messages ≤ 100 + limit
    → length (push_shifted message messages) ≤ 100 + limit
unfolding push_shifted
length-push_shifted message messages limit h =
    let pushed = push message messages in
    ground (arith, length-append messages (message ∷ []), length-drop 1 pushed)

module _ (subtle : Subtle) (codec : Codec) where
  show-IsBounded :
      (limit : ℕ) (member_id : Text) (chat : Chat) (shown : Result ChatMessage)
      → ((message : ChatMessage) → shown ≡ ok message → is_sound codec member_id message ≡ true)
      → IsBounded codec (100 + limit) member_id chat
      → IsBounded codec (100 + limit) member_id (show_message subtle codec chat shown).0
  unfolding IsBounded
  show-IsBounded limit member_id chat (err cause) sound h = h
  show-IsBounded limit member_id chat (ok message) sound h = (
    sound-push_shifted codec member_id message chat.messages (sound message refl) h.0,
    length-push_shifted message chat.messages limit h.1,
    h.2,
  )

  clear-IsBounded :
      (limit : ℕ) (sender_id : Text) (chat : Chat) (clear : Result Bytes)
      → IsBounded codec (100 + limit) chat.member_id chat
      → IsBounded codec (100 + limit) chat.member_id (on_clear subtle codec sender_id chat clear).0
  clear-IsBounded limit sender_id chat clear h =
      show-IsBounded limit chat.member_id chat
        (clear >>= λ bytes.
          codec.read bytes >>= λ payload. check_payload codec sender_id chat.member_id payload)
        (λ message shown.
          let bytes = >>=-eq-ok clear _ shown in
          let payload = >>=-eq-ok (codec.read bytes.0) _ bytes.2 in
          checked_sound codec sender_id chat.member_id payload.0 message payload.2)
        h

  receive-IsBounded :
      (limit : ℕ) (packet : Bytes) (sender_id : Text) (chat : Chat)
      → IsBounded codec (100 + limit) chat.member_id chat
      → IsBounded codec
          (100 + limit)
          chat.member_id
          (receive_chat subtle codec packet sender_id chat).0
  unfolding receive_chat IsBounded
  receive-IsBounded limit packet sender_id chat h =
      let decrypted = decrypt subtle chat.chat_cipher packet (aad_of codec sender_id) in
      let decrypting = record chat { chat_cipher = decrypted.0 } in
      let cleared = on_clear subtle codec sender_id decrypting decrypted.1 in
      elim (ltb (length packet) 29)
        as (λ short.
          IsBounded codec (100 + limit) chat.member_id
            (if short then (chat, ok tt) else cleared).0) [
              | true ↦ h
              | false ↦ clear-IsBounded limit sender_id decrypting decrypted.1 h
            ]

  packet-IsBounded :
      (limit : ℕ) (message : ChatMessage) (published : Result (Unit {0})) (packet : Result Bytes)
      (chat : Chat)
      → is_sound codec chat.member_id message ≡ true
      → IsBounded codec (100 + limit) chat.member_id chat
      → IsBounded codec
          (100 + suc limit)
          chat.member_id
          (on_packet subtle codec message published packet chat).0
  unfolding IsBounded
  packet-IsBounded limit message published (err cause) chat new h = (h.0, omega (arith, h.1), h.2)
  packet-IsBounded limit message (err cause) (ok packet) chat new h = (h.0, omega (arith, h.1), h.2)
  packet-IsBounded limit message (ok done) (ok packet) chat new h = (
    sound-push codec chat.member_id message chat.messages new h.0,
    omega (arith, h.1, length-append chat.messages (message ∷ [])),
    h.2,
  )

  later-IsBounded :
      (limit : ℕ) (member_id : Text) (chat : Chat)
      → IsBounded codec (100 + limit) member_id chat
      → IsBounded codec (100 + suc limit) member_id chat
  unfolding IsBounded
  later-IsBounded limit member_id chat h = (h.0, omega (arith, h.1), h.2)

  own_sound :
      (id value : Text) (now : ℕ) (chat : Chat)
      → (is_empty value || is_too_long codec value) ≡ false
      → is_sound codec chat.member_id (own_message id value now chat) ≡ true
  unfolding is_sound
  own_sound id value now chat h = ground (arith, ===_refl chat.member_id)

  send-IsBounded :
      (limit : ℕ) (text id : Text) (now : ℕ) (published : Result (Unit {0})) (chat : Chat)
      → IsBounded codec (100 + limit) chat.member_id chat
      → IsBounded codec
          (100 + suc limit)
          chat.member_id
          (send_chat subtle codec text id now published chat).0
  unfolding send_chat IsBounded
  send-IsBounded limit text id now published chat h =
      let value = trim_end (trim_start text) in
      let sent = send_packet subtle codec id value now chat in
      let sending = record chat { chat_cipher = sent.0 } in
      let message = own_message id value now chat in
      elim (Bool-cases (is_empty value || is_too_long codec value)) [
        | inl refused ↦ rw refused (later-IsBounded limit chat.member_id chat h)
        | inr fits ↦ rw fits (
            packet-IsBounded limit message published sent.1 sending
              (own_sound id value now chat fits) h)
      ]

  unfoldable pub act : Action → Chat → Chat
  act (receives packet sender_id) chat = (receive_chat subtle codec packet sender_id chat).0
  act (sends text id now published) chat = (send_chat subtle codec text id now published chat).0

  unfoldable pub run : List Action → Chat → Chat
  run [] chat = chat
  run (action ∷ actions) chat = run actions (act action chat)

  -- A step from the member's own name.
  of_own :
      (limit more : ℕ) (member_id : Text) (chat next : Chat)
      → IsBounded codec (100 + limit) member_id chat
      → (IsBounded codec (100 + limit) chat.member_id chat
          → IsBounded codec more chat.member_id next)
      → IsBounded codec more member_id next
  unfolding IsBounded
  of_own limit more member_id chat next h step =
      let own : IsBounded codec (100 + limit) chat.member_id chat = (rw h.2 h.0, h.1, refl) in
      let r = step own in
      (subst (λ m. all_sound codec m next.messages ≡ true) h.2 r.0, r.1, r.2 ∙ h.2)

  -- The bound grows by one with each text that is sent.
  run-IsBounded :
      (actions : List Action) (limit : ℕ) (member_id : Text) (chat : Chat)
      → IsBounded codec (100 + limit) member_id chat
      → IsBounded codec (100 + (limit + count_sends actions)) member_id (run actions chat)
  unfolding run act
  run-IsBounded [] limit member_id chat h = rw (add-zero limit) h
  run-IsBounded (receives packet sender_id ∷ actions) limit member_id chat h =
      run-IsBounded actions limit member_id (receive_chat subtle codec packet sender_id chat).0 (
        of_own limit _ member_id chat (receive_chat subtle codec packet sender_id chat).0 h
          (receive-IsBounded limit packet sender_id chat))
  run-IsBounded (sends text id now published ∷ actions) limit member_id chat h =
      let next = (send_chat subtle codec text id now published chat).0 in
      rw (add-suc limit (count_sends actions), ← suc-add limit (count_sends actions))
        (run-IsBounded actions (suc limit) member_id next
          (of_own limit _ member_id chat next h (send-IsBounded limit text id now published chat)))

  -- In a room that was entered with no messages, whatever packets arrive from whomever and whatever
  -- is sent: every message has a text of at most 1000 bytes, is shown as this member's exactly if it
  -- names this member as its sender, and has a short identifier and a safe time if it is another's;
  -- and there are at most 100 of them and as many as were sent.
  pub run_sound :
      (actions : List Action) (chat : Chat)
      → chat.messages ≡ []
      → (all_sound codec chat.member_id (run actions chat).messages ≡ true)
        × (length (run actions chat).messages ≤ 100 + count_sends actions)
  unfolding IsBounded all_sound
  run_sound actions chat empty =
      let start : IsBounded codec (100 + 0) chat.member_id chat =
        rw empty (refl, omega arith, refl) in
      let h = run-IsBounded actions 0 chat.member_id chat start in (h.0, omega (arith, h.1))
