-- ===== src/Client/Events/Card.antt =====
-- The invitation card of frontend/src/client/app.ts through the events that name the host.
use dawn_mesh_server.Prelude.{
  ◌≡◌, refl, ◌∙◌, arith, Bool, true, false, ◌&&◌, ◌||◌, not, List, Option, none, some, String,
  if◌then◌else◌, inl, inr, Bool-cases,
}
use dawn_mesh_server.Prelude.Maps.{◌===◌, string_eq}
use dawn_mesh_server.Client.Voice.{
  ActiveRoom, Member, or_else, apply_microphone, apply_wanted, cancel_ptt_release, stop_ptt,
  dispose_microphone, request_media_permission, update_speaking_permission,
  apply_roster_speaking_policy, roster_policy, on_own_policy, on_voice_policy, end_room,
}
use dawn_mesh_server.Client.Voice.Actions.{set_ptt}
use dawn_mesh_server.Client.Leaving.{Room, Client, end_kept, reveal_invite, hide_invite}
use dawn_mesh_server.Client.Events.{
  with_voice, take_roster, became_host, is_host, handle_snapshot, handle_role_changed,
}

-- A code that is visible is the host's, and a timer hides it unless the room has ended.
pub is_guarded : Room → Bool
is_guarded room =
    not room.invite_visible || (room.voice.is_host && (room.invite_timer || room.voice.room_ended))

abbrev pub is_card_guarded : Option Room → Bool
is_card_guarded none = true
is_card_guarded (some room) = is_guarded room

-- What a change of the voice keeps.
pub IsHostKept : ActiveRoom → ActiveRoom → Type 0
IsHostKept before after = (after.is_host ≡ before.is_host) × (after.room_ended ≡ before.room_ended)

pub wanted_kept : (active : ActiveRoom) → IsHostKept active (apply_wanted active)
unfolding IsHostKept apply_wanted apply_microphone
wanted_kept active = (refl, refl)

update_kept : (active : ActiveRoom) → IsHostKept active (update_speaking_permission active)
unfolding IsHostKept update_speaking_permission request_media_permission stop_ptt cancel_ptt_release
update_kept active = (ground arith, ground arith)

roster_kept : (active : ActiveRoom) → IsHostKept active (apply_roster_speaking_policy active)
unfolding IsHostKept apply_roster_speaking_policy apply_wanted apply_microphone
roster_kept active = update_kept (record active {
  policy_can_speak = roster_policy active.member_id active.members active.policy_can_speak;
})

own_kept :
    (can_speak : Bool) (active : ActiveRoom) → IsHostKept active (on_own_policy can_speak active)
unfolding IsHostKept on_own_policy apply_wanted apply_microphone stop_ptt cancel_ptt_release
own_kept can_speak active =
    let updated = update_kept (record active { policy_can_speak = can_speak }) in
    (ground (arith, updated.0), ground (arith, updated.1))

pub policy_kept :
    (member_id : String) (can_speak : Bool) (members : Option (List Member)) (active : ActiveRoom)
    → IsHostKept active (on_voice_policy member_id can_speak members active)
unfolding IsHostKept on_voice_policy
policy_kept member_id can_speak members active =
    let own = if member_id === active.member_id then on_own_policy can_speak active else active in
    let kept = roster_kept (record own { members = or_else members own.members }) in
    let told = own_kept can_speak active in
    (kept.0 ∙ ground (arith, told.0), kept.1 ∙ ground (arith, told.1))

pub let_go_kept : (active : ActiveRoom) → IsHostKept active (set_ptt false true active)
unfolding IsHostKept set_ptt apply_wanted apply_microphone stop_ptt cancel_ptt_release
let_go_kept active = (ground arith, ground arith)

pub kept-guarded :
    (change : ActiveRoom → ActiveRoom)
    → ((active : ActiveRoom) → IsHostKept active (change active))
    → (client : Client) → is_card_guarded client.active ≡ true
    → is_card_guarded (with_voice change client).active ≡ true
unfolding is_guarded IsHostKept
kept-guarded change keeps client h = by_active client.active h
  where
    by_active :
        (active : Option Room)
        → is_card_guarded active ≡ true
        → is_card_guarded (with_voice change (record client { active = active })).active ≡ true
    by_active none h = refl
    by_active (some room) h = rw ((keeps room.voice).0, (keeps room.voice).1) h

pub hidden-guarded : (client : Client) → is_card_guarded (hide_invite client).active ≡ true
unfolding hide_invite is_guarded
hidden-guarded client = by_active client.active
  where
    by_active :
        (active : Option Room)
        → is_card_guarded (hide_invite (record client { active = active })).active ≡ true
    by_active none = refl
    by_active (some room) = refl

pub revealed-guarded :
    (client : Client)
    → is_card_guarded client.active ≡ true
    → is_card_guarded (reveal_invite client).active ≡ true
unfolding reveal_invite is_guarded
revealed-guarded client h = by_active client.active h
  where
    by_active :
        (active : Option Room)
        → is_card_guarded active ≡ true
        → is_card_guarded (reveal_invite (record client { active = active })).active ≡ true
    by_active none h = refl
    by_active (some room) h = ground arith

pub host-revealed-guarded :
    (client : Client)
    → is_host client.active ≡ true
    → is_card_guarded (reveal_invite client).active ≡ true
unfolding reveal_invite is_guarded
host-revealed-guarded client h = by_active client.active h
  where
    by_active :
        (active : Option Room)
        → is_host active ≡ true
        → is_card_guarded (reveal_invite (record client { active = active })).active ≡ true
    by_active none h = refl
    by_active (some room) h = rw (h) refl

revealed_host : (client : Client) → is_host (reveal_invite client).active ≡ is_host client.active
unfolding reveal_invite
revealed_host client = by_active client.active
  where
    by_active :
        (active : Option Room)
        → is_host (reveal_invite (record client { active = active })).active ≡ is_host active
    by_active none = refl
    by_active (some room) = ground arith

abbrev told : String → Option Bool → Option (List Member) → Client → Client
told host can_speak members client = with_voice (take_roster host can_speak members) client

taken :
    (host : String) (can_speak : Option Bool) (members : Option (List Member)) (active : ActiveRoom)
    → ((take_roster host can_speak members active).is_host ≡ (host === active.member_id))
      × ((take_roster host can_speak members active).room_ended ≡ active.room_ended)
unfolding take_roster IsHostKept
taken host can_speak members active = roster_kept (record active {
  is_host = host === active.member_id;
  policy_can_speak = or_else can_speak active.policy_can_speak;
  members = or_else members active.members;
})

-- A member that becomes the host is the host once the roster is taken.
told_host :
    (host : String) (can_speak : Option Bool) (members : Option (List Member)) (client : Client)
    → became_host host client.active ≡ true
    → is_host (told host can_speak members client).active ≡ true
told_host host can_speak members client h = by_active client.active h
  where
    by_active :
        (active : Option Room)
        → became_host host active ≡ true
        → is_host (told host can_speak members (record client { active = active })).active ≡ true
    by_active none h = absurd (ground arith)
    by_active (some room) h = ground (arith, (taken host can_speak members room.voice).0)

-- A host that remains one keeps its card.
told-guarded :
    (host : String) (can_speak : Option Bool) (members : Option (List Member)) (client : Client)
    → is_card_guarded client.active ≡ true
    → became_host host client.active ≡ false
    → is_host (told host can_speak members client).active ≡ true
    → is_card_guarded (told host can_speak members client).active ≡ true
unfolding is_guarded
told-guarded host can_speak members client h stays is_now = by_active client.active h stays is_now
  where
    by_active :
        (active : Option Room)
        → is_card_guarded active ≡ true
        → became_host host active ≡ false
        → is_host (told host can_speak members (record client { active = active })).active ≡ true
        → is_card_guarded (told host can_speak members (record client { active = active })).active
          ≡ true
    by_active none h stays is_now = refl
    by_active (some room) h stays is_now = ground (
      arith,
      (taken host can_speak members room.voice).0,
      (taken host can_speak members room.voice).1,
    )

hide_unless_host-guarded :
    (client : Client)
    → (is_host client.active ≡ true → is_card_guarded client.active ≡ true)
    → is_card_guarded (if is_host client.active then client else hide_invite client).active ≡ true
hide_unless_host-guarded client h = elim (Bool-cases (is_host client.active)) [
  | inl host ↦ rw (host) (h host)
  | inr guest ↦ rw (guest) (hidden-guarded client)
]

pub snapshot-guarded :
    (host : String) (can_speak : Option Bool) (members : Option (List Member)) (client : Client)
    → is_card_guarded client.active ≡ true
    → is_card_guarded (handle_snapshot host can_speak members client).active ≡ true
unfolding handle_snapshot
snapshot-guarded host can_speak members client h =
    let now = told host can_speak members client in
    let revealed = if became_host host client.active then reveal_invite now else now in
    kept-guarded apply_wanted wanted_kept
      (if is_host revealed.active then revealed else hide_invite revealed)
      (hide_unless_host-guarded revealed (revealed-host (became_host host client.active) refl))
  where
    revealed-host :
        (became : Bool)
        → became_host host client.active ≡ became
        → let now = told host can_speak members client in
          let revealed = if became then reveal_invite now else now in
          is_host revealed.active ≡ true → is_card_guarded revealed.active ≡ true
    revealed-host true became is_now =
        host-revealed-guarded (told host can_speak members client)
          (told_host host can_speak members client became)
    revealed-host false stays is_now = told-guarded host can_speak members client h stays is_now

pub role-guarded :
    (host : String) (members : Option (List Member)) (client : Client)
    → is_card_guarded client.active ≡ true
    → is_card_guarded (handle_role_changed host members client).active ≡ true
unfolding handle_role_changed
role-guarded host members client h = by_change (became_host host client.active) refl
  where
    by_change :
        (became : Bool)
        → became_host host client.active ≡ became
        → let now = told host none members client in
          is_card_guarded (if became then reveal_invite now else hide_invite now).active ≡ true
    by_change true became =
        host-revealed-guarded (told host none members client)
          (told_host host none members client became)
    by_change false stays = hidden-guarded (told host none members client)

pub end_kept-guarded : (room : Room) → is_guarded room ≡ true → is_guarded (end_kept room) ≡ true
unfolding is_guarded end_kept end_room dispose_microphone stop_ptt cancel_ptt_release
end_kept-guarded room h = ground arith

pub unseen-guarded : (room : Room) → room.invite_visible ≡ false → is_guarded room ≡ true
unfolding is_guarded
unseen-guarded room h = ground arith
