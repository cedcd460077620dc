-- ===== src/Client/Voice.antt =====
-- Who may speak, and when the microphone is wanted: the part of frontend/src/client/app.ts from
-- `handleManagementEvent` to `setPTT`. `active` is the room of `state.active`; the handlers of a room
-- that is not active return at once, and what only renders is left out.
pub mod Actions
pub mod Permission
pub mod Connections
pub mod Safety
pub mod Runs
pub mod Connected
pub mod Ending
mod Tests
use dawn_mesh_server.Prelude.{
  ℕ, ◌+◌, Bool, true, false, ◌&&◌, ◌||◌, not, List, [], ◌∷◌, Option, none, some, String,
  if◌then◌else◌,
}
use dawn_mesh_server.Prelude.Maps.{◌===◌, string_eq}
use dawn_mesh_server.Shared.MicrophoneGate.{Gate, GatedTrack, set_gate}
use dawn_mesh_server.Shared.MicrophoneGate

pub data VoiceMode : Type 0 where
  ptt_mode auto_mode : VoiceMode

pub record Member : Type 0 where
  pub id : String
  pub can_speak : Bool

-- `readyState === OPEN`, and how many `media_ready` events were sent.
pub record Socket : Type 0 where
  pub is_open : Bool
  pub media_ready_sent : ℕ

-- The fields of `ActiveRoom` that these functions use. `room` is `room.state === "connected"`, a
-- timer is whether it is set, and `mic_live` is `readyState === "live"` of the track.
pub record ActiveRoom : Type 0 where
  pub member_id : String
  pub members : List Member
  pub is_host : Bool
  pub policy_can_speak : Bool
  pub media_can_publish : Bool
  pub can_speak : Bool
  pub muted : Bool
  pub voice_mode : VoiceMode
  pub ptt : Bool
  pub ptt_release_timer : Bool
  pub media_permission_timer : Bool
  pub socket : Option Socket
  pub room : Option Bool
  pub audio_ready : Bool
  pub audio_generation : ℕ
  pub mic_gate : Option Gate
  pub mic_live : Bool
  pub mic_task : Bool
  pub leaving : Bool
  pub room_ended : Bool

-- The fields that `enterRoom` starts with.
abbrev pub enter_room : String → Bool → ActiveRoom
enter_room member_id is_host = record {
  member_id = member_id;
  members = [];
  is_host = is_host;
  policy_can_speak = true;
  media_can_publish = false;
  can_speak = false;
  muted = false;
  voice_mode = ptt_mode;
  ptt = false;
  ptt_release_timer = false;
  media_permission_timer = false;
  socket = none;
  room = none;
  audio_ready = false;
  audio_generation = 0;
  mic_gate = none;
  mic_live = false;
  mic_task = false;
  leaving = false;
  room_ended = false;
}

abbrev pub is_true : Option Bool → Bool
is_true none = false
is_true (some b) = b

abbrev pub is_socket_open : Option Socket → Bool
is_socket_open none = false
is_socket_open (some socket) = socket.is_open

abbrev pub is_auto : VoiceMode → Bool
is_auto auto_mode = true
is_auto ptt_mode = false

-- `currentMicWanted`.
unfoldable pub current_mic_wanted : ActiveRoom → Bool
current_mic_wanted active =
    is_true active.room
    && active.audio_ready
    && active.can_speak
    && not active.muted
    && (is_auto active.voice_mode || active.ptt)

abbrev pub set_if_any : Bool → Option Gate → Option Gate
set_if_any enabled none = none
set_if_any enabled (some gate) = some (set_gate enabled gate)

-- `applyMicrophone`, up to its first `await`.
unfoldable pub apply_microphone : Bool → ActiveRoom → ActiveRoom
apply_microphone enabled active = record active {
  mic_gate = set_if_any (enabled && current_mic_wanted active) active.mic_gate;
}

unfoldable pub cancel_ptt_release : ActiveRoom → ActiveRoom
cancel_ptt_release active = record active { ptt_release_timer = false }

unfoldable pub stop_ptt : ActiveRoom → ActiveRoom
unfolding cancel_ptt_release
stop_ptt active = record (cancel_ptt_release active) { ptt = false }

-- The gate and the track are disposed of and forgotten.
unfoldable pub dispose_microphone : ActiveRoom → ActiveRoom
unfolding cancel_ptt_release
dispose_microphone active = record (cancel_ptt_release active) {
  audio_generation = active.audio_generation + 1;
  mic_gate = none;
  mic_live = false;
  audio_ready = false;
  ptt = false;
}

abbrev pub send_media_ready : Option Socket → Option Socket
send_media_ready none = none
send_media_ready (some socket) =
    some (record socket { media_ready_sent = socket.media_ready_sent + 1 })

abbrev pub differ : Bool → Bool → Bool
differ a b = if a then not b else b

-- Whether `requestMediaPermission` goes past its first guard.
unfoldable pub may_request : ActiveRoom → Bool
may_request active =
    not active.leaving
    && not active.room_ended
    && is_true active.room
    && is_socket_open active.socket

unfoldable pub is_mismatch : ActiveRoom → Bool
is_mismatch active = differ active.media_can_publish (active.is_host || active.policy_can_speak)

unfoldable pub request_media_permission : Bool → ActiveRoom → ActiveRoom
request_media_permission force active =
    if not (may_request active) || (not force && not (is_mismatch active))
    then record active { media_permission_timer = false }
    else record active {
      media_permission_timer = is_mismatch active;
      socket = send_media_ready active.socket;
    }

unfoldable pub update_speaking_permission : ActiveRoom → ActiveRoom
update_speaking_permission active =
    let can_speak = (active.is_host || active.policy_can_speak) && active.media_can_publish in
    let updated = record active { can_speak = can_speak } in
    request_media_permission false (if can_speak then updated else stop_ptt updated)

-- `members.find(m => m.id === memberId)?.canSpeak ?? policyCanSpeak`.
unfoldable pub roster_policy : String → List Member → Bool → Bool
roster_policy member_id [] policy = policy
roster_policy member_id (m ∷ members) policy =
    if m.id === member_id then m.can_speak else roster_policy member_id members policy

-- `applyMicrophone(currentMicWanted())`.
unfoldable pub apply_wanted : ActiveRoom → ActiveRoom
apply_wanted active = apply_microphone (current_mic_wanted active) active

unfoldable pub apply_roster_speaking_policy : ActiveRoom → ActiveRoom
apply_roster_speaking_policy active = apply_wanted (
    update_speaking_permission (record active {
      policy_can_speak = roster_policy active.member_id active.members active.policy_can_speak;
    }))

abbrev pub or_else {ℓ} : {A : Type ℓ} → Option A → A → A
or_else none old = old
or_else (some a) old = a

-- `handleManagementEvent` for a `snapshot`.
unfoldable pub on_snapshot : String → Option Bool → Option (List Member) → ActiveRoom → ActiveRoom
on_snapshot host_member_id can_speak members active = apply_wanted (
    apply_roster_speaking_policy (record active {
      is_host = host_member_id === active.member_id;
      policy_can_speak = or_else can_speak active.policy_can_speak;
      members = or_else members active.members;
    }))

-- For a `voice_policy`: the part for this member.
unfoldable pub on_own_policy : Bool → ActiveRoom → ActiveRoom
on_own_policy can_speak active =
    let updated = update_speaking_permission (record active { policy_can_speak = can_speak }) in
    apply_wanted (if updated.can_speak then updated else stop_ptt updated)

unfoldable pub on_voice_policy : String → Bool → Option (List Member) → ActiveRoom → ActiveRoom
on_voice_policy member_id can_speak members active =
    let own = if member_id === active.member_id then on_own_policy can_speak active else active in
    apply_roster_speaking_policy (record own { members = or_else members own.members })

unfoldable pub on_role_changed : String → Option (List Member) → ActiveRoom → ActiveRoom
on_role_changed host_member_id members active = apply_roster_speaking_policy (record active {
  is_host = host_member_id === active.member_id;
  members = or_else members active.members;
})

-- `handleRoomEnded` where messages keep the room on the screen.
unfoldable pub end_room : ActiveRoom → ActiveRoom
end_room active =
    let disposed = dispose_microphone (stop_ptt active) in
    record disposed {
      room_ended = true;
      mic_task = false;
      leaving = true;
      media_permission_timer = false;
      socket = none;
      room = none;
    }
