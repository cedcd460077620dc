-- ===== src/Client/Messages/Validity.antt =====
-- What a room's list of messages holds, whatever packets arrive and whatever is sent.
pub mod Bounds
use native.Mathlib.Nat.{add-zero, add-suc, suc-add}
use dawn_mesh_server.Prelude.{
  ℕ, suc, ◌+◌, ◌≤◌, ◌≡◌, refl, ◌∙◌, arith, Bool, true, false, ◌&&◌, ◌||◌, not, List, [], ◌∷◌,
  Option, if◌then◌else◌, length, length-append, length-drop, drop, leb, ltb, Result, ok, err, ◌>>=◌,
  ◌>>◌, throw_if, subst, Bool-cases, inl, inr, >>=-eq-ok,
}
use dawn_mesh_server.Prelude.Maps.{◌===◌, codes_eq, ===_refl}
use dawn_mesh_server.Prelude.Int.{ℤ}
use dawn_mesh_server.Crypto.Bytes.{Bytes}
use dawn_mesh_server.Crypto.Base64.{Text}
use dawn_mesh_server.Crypto.Platform.{Subtle}
use dawn_mesh_server.Crypto.Chat.{decrypt}
use dawn_mesh_server.Client.Presence.{trim_start, trim_end}
use dawn_mesh_server.Client.Messages.{
  ChatMessage, Payload, Codec, Chat, is_safe_integer, is_too_long, is_valid, check_payload,
  push_shifted, push, aad_of, receive_chat, own_message, send_packet, send_chat, require, invalid,
  show_message, on_clear, on_packet, is_empty,
}

-- A packet of a participant, or a text that is sent with its identifier and time, and how
-- `publishData` comes out.
pub data Action : Type 0 where
  receives : (packet : Bytes) (sender_id : Text) → Action
  sends : (text id : Text) (now : ℕ) (published : Result (Unit {0})) → Action

abbrev pub count_sends : List Action → ℕ
count_sends [] = 0
count_sends (receives packet sender_id ∷ actions) = count_sends actions
count_sends (sends text id now published ∷ actions) = suc (count_sends actions)

abbrev same : Bool → Bool → Bool
same a b = if a then b else not b

module _ (codec : Codec) where
  -- The text is short enough; it is shown as this member's exactly if this member is the sender; and
  -- a message of another has a short identifier and a safe time.
  pub is_sound : Text → ChatMessage → Bool
  is_sound member_id message =
      not (is_too_long codec message.text)
      && same message.mine (message.sender_id === member_id)
      && (message.mine || (leb (length message.id) 160 && is_safe_integer message.sent_at))

  pub all_sound : Text → List ChatMessage → Bool
  all_sound member_id [] = true
  all_sound member_id (message ∷ messages) =
      is_sound member_id message && all_sound member_id messages

  pub sound-push :
      (member_id : Text) (message : ChatMessage) (messages : List ChatMessage)
      → is_sound member_id message ≡ true
      → all_sound member_id messages ≡ true
      → all_sound member_id (push message messages) ≡ true
  unfolding all_sound
  sound-push member_id message [] new h = rw new refl
  sound-push member_id message (old ∷ messages) new h =
      ground (arith, sound-push member_id message messages new)

  sound-drop :
      (member_id : Text) (messages : List ChatMessage)
      → all_sound member_id messages ≡ true
      → all_sound member_id (drop 1 messages) ≡ true
  unfolding all_sound
  sound-drop member_id [] h = refl
  sound-drop member_id (message ∷ messages) h = ground arith

  pub sound-push_shifted :
      (member_id : Text) (message : ChatMessage) (messages : List ChatMessage)
      → is_sound member_id message ≡ true
      → all_sound member_id messages ≡ true
      → all_sound member_id (push_shifted message messages) ≡ true
  unfolding push_shifted
  sound-push_shifted member_id message messages new h =
      let pushed = sound-push member_id message messages new h in
      elim (Bool-cases (ltb 100 (length (push message messages)))) [
        | inl over ↦ rw over (sound-drop member_id (push message messages) pushed)
        | inr under ↦ rw under pushed
      ]

  passed :
      (b : Bool) (made message : ChatMessage)
      → (throw_if (not b) invalid >> ok made) ≡ ok message
      → (b ≡ true) × (made ≡ message)
  passed true made message h = (refl, ok_injective h)
    where
      ok_injective : {a b : ChatMessage} → ok a ≡ ok b → a ≡ b
      ok_injective h = cc
  passed false made message h = cc

  valid_sound :
      (sender_id member_id id sender text : Text) (name : Option Text) (sent_at : ℤ)
      → is_valid codec sender_id id sender text sent_at ≡ true
      → is_sound member_id (record {
        id = id;
        sender_id = sender;
        sender_name = name;
        text = text;
        sent_at = sent_at;
        mine = sender_id === member_id;
      })
        ≡ true
  unfolding is_sound is_valid
  valid_sound sender_id member_id id sender text name sent_at h =
      let author = (codes_eq.beq_iff sender sender_id).0 (first (sender === sender_id) _ _ _ h) in
      rw author (ground arith)
    where
      first : (a b c d : Bool) → (a && b && c && d) ≡ true → a ≡ true
      first a b c d h = ground arith

  -- A payload that passes the checks gives a sound message.
  pub checked_sound :
      (sender_id member_id : Text) (payload : Payload) (message : ChatMessage)
      → check_payload codec sender_id member_id payload ≡ ok message
      → is_sound member_id message ≡ true
  unfolding check_payload
  checked_sound sender_id member_id payload message h =
      let i = >>=-eq-ok (require payload.id) _ h in
      let s = >>=-eq-ok (require payload.sender_id) _ i.2 in
      let t = >>=-eq-ok (require payload.text) _ s.2 in
      let n = >>=-eq-ok (require payload.sent_at) _ t.2 in
      let p = passed (is_valid codec sender_id i.0 s.0 t.0 n.0) _ message n.2 in
      subst (λ m. is_sound member_id m ≡ true) p.1
        (valid_sound sender_id member_id i.0 s.0 t.0 payload.sender_name n.0 p.0)
