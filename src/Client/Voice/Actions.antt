-- ===== src/Client/Voice/Actions.antt =====
-- The listeners of frontend/src/client/app.ts that reach the microphone: media events, the talk
-- button, the mode and mute buttons, and the steps of `initializeAudioDevices`.
use dawn_mesh_server.Prelude.{
  ℕ, ◌+◌, Bool, true, false, ◌&&◌, ◌||◌, not, List, [], ◌∷◌, Option, none, some, String,
  if◌then◌else◌, ◌==◌,
}
use dawn_mesh_server.Shared.MicrophoneGate.{Gate, GatedTrack, new_gate, attach, close_track}
use dawn_mesh_server.Client.Voice.{
  VoiceMode, ActiveRoom, Member, is_true, is_auto, set_if_any, apply_wanted, cancel_ptt_release,
  stop_ptt, dispose_microphone, request_media_permission, update_speaking_permission, on_snapshot,
  on_voice_policy, on_role_changed, end_room,
}

-- The state of a room that is there.
abbrev pub set_state : Bool → Option Bool → Option Bool
set_state connected none = none
set_state connected (some old) = some connected

-- `RoomEvent.ParticipantPermissionsChanged` of this member.
unfoldable pub on_permissions_changed : Bool → ActiveRoom → ActiveRoom
on_permissions_changed can_publish active =
    if active.leaving
    then active
    else let updated =
        update_speaking_permission (record active { media_can_publish = can_publish }) in
      apply_wanted (if updated.can_speak then updated else stop_ptt updated)

-- `RoomEvent.Reconnecting`.
unfoldable pub on_reconnecting : ActiveRoom → ActiveRoom
on_reconnecting active =
    let stopped = stop_ptt (record active { room = set_state false active.room }) in
    record stopped { mic_gate = set_if_any false stopped.mic_gate }

-- `RoomEvent.Reconnected`.
unfoldable pub on_reconnected : Bool → ActiveRoom → ActiveRoom
on_reconnected can_publish active = apply_wanted (
    request_media_permission true (
      update_speaking_permission
        (record active { room = set_state true active.room; media_can_publish = can_publish })))

-- `RoomEvent.Disconnected` of a room that was not left on purpose.
unfoldable pub on_disconnected : ActiveRoom → ActiveRoom
on_disconnected active =
    let gone = record active { room = set_state false active.room } in
    if active.leaving
    then gone
    else let stopped = stop_ptt gone in
      record stopped { mic_gate = set_if_any false stopped.mic_gate }

-- `connectMedia` up to the new room, and from its connection on.
unfoldable pub connect_media : ActiveRoom → ActiveRoom
connect_media active =
    if active.leaving
    then active
    else record (dispose_microphone active) { mic_task = false; room = some false }

unfoldable pub on_media_connected : Bool → ActiveRoom → ActiveRoom
on_media_connected can_publish active =
    if active.leaving
    then active
    else let asked = request_media_permission true (
        update_speaking_permission
          (record active { room = set_state true active.room; media_can_publish = can_publish })) in
      if asked.audio_ready then apply_wanted asked else asked

-- `initializeAudioDevices` up to the request; it rejects while the room is not connected.
unfoldable pub initialize_audio_devices : ActiveRoom → ActiveRoom
initialize_audio_devices active =
    if active.mic_task || (active.audio_ready && active.mic_live) || not (is_true active.room)
    then active
    else record active { audio_generation = active.audio_generation + 1; mic_task = true }

-- `current()`.
unfoldable pub is_current : ℕ → ActiveRoom → Bool
is_current generation active = not active.leaving && active.audio_generation == generation

-- The device was captured, and the gate attached to its track.
unfoldable pub on_captured : ℕ → GatedTrack → ActiveRoom → ActiveRoom
on_captured generation track active =
    if is_current generation active
    then record active { mic_gate = some (attach track new_gate).0; mic_live = true }
    else active

unfoldable pub on_published : ℕ → ActiveRoom → ActiveRoom
on_published generation active =
    if is_current generation active
    then record (apply_wanted (record active { audio_ready = true })) { mic_task = false }
    else active

unfoldable pub on_initialize_failed : ℕ → ActiveRoom → ActiveRoom
on_initialize_failed generation active =
    if is_current generation active
    then record (stop_ptt (record active { audio_ready = false })) { mic_task = false }
    else active

abbrev pub close_gate : Option Gate → Option Gate
close_gate none = none
close_gate (some gate) = some (record gate { track = close_track gate.track })

-- The `catch` of `applyMicrophone`.
unfoldable pub on_apply_failed : ActiveRoom → ActiveRoom
on_apply_failed active = record (stop_ptt active) { mic_gate = close_gate active.mic_gate }

unfoldable pub set_ptt : Bool → Bool → ActiveRoom → ActiveRoom
set_ptt false immediate active =
    if not immediate && active.ptt && active.audio_ready && active.mic_live
    then record (cancel_ptt_release active) { ptt_release_timer = true }
    else apply_wanted (stop_ptt active)
set_ptt true immediate active =
    if is_auto active.voice_mode || active.muted || not active.can_speak
    then active
    else let pressed = record (cancel_ptt_release active) { ptt = true } in
      if pressed.audio_ready then apply_wanted pressed else initialize_audio_devices pressed

-- The callback of `pttReleaseTimer`.
unfoldable pub on_release_timer : ActiveRoom → ActiveRoom
on_release_timer active =
    if active.ptt_release_timer
    then apply_wanted (record active { ptt_release_timer = false; ptt = false })
    else active

-- The listener of `#voice-mode` up to its `await`, or to its end if it has none.
unfoldable pub choose_voice_mode : VoiceMode → ActiveRoom → ActiveRoom
choose_voice_mode mode active =
    if active.room_ended
    then active
    else let chosen = stop_ptt (record active { voice_mode = mode }) in
      if is_auto mode && not chosen.audio_ready
      then initialize_audio_devices chosen
      else apply_wanted chosen

unfoldable pub toggle_mute : ActiveRoom → ActiveRoom
toggle_mute active =
    let stopped = stop_ptt active in apply_wanted (record stopped { muted = not stopped.muted })

-- `mode_applied` is the rest of the listener of `#voice-mode`, once `initializeAudioDevices` is done.
-- `state_changes` is a change of `room.state` that no handler hears of, as when LiveKit resumes its
-- signal connection: the state is then not "connected", and `RoomEvent.Reconnecting` is not emitted.
pub data Action : Type 0 where
  snapshot : String → Option Bool → Option (List Member) → Action
  voice_policy : String → Bool → Option (List Member) → Action
  role_changed : String → Option (List Member) → Action
  room_ends reconnecting disconnected connecting apply_failed release_timer track_ended : Action
  mode_applied : Action
  state_changes : Bool → Action
  permissions_changed reconnected media_connected : Bool → Action
  initialize mute : Action
  captured : ℕ → GatedTrack → Action
  published initialize_failed : ℕ → Action
  talk : (pressed immediate : Bool) → Action
  choose : VoiceMode → Action

unfoldable pub act : Action → ActiveRoom → ActiveRoom
act (snapshot host can_speak members) active = on_snapshot host can_speak members active
act (voice_policy member can_speak members) active = on_voice_policy member can_speak members active
act (role_changed host members) active = on_role_changed host members active
act room_ends active = if active.room_ended then active else end_room active
act reconnecting active = on_reconnecting active
act disconnected active = on_disconnected active
act connecting active = connect_media active
act apply_failed active = on_apply_failed active
act release_timer active = on_release_timer active
act track_ended active = dispose_microphone active
act (permissions_changed can_publish) active = on_permissions_changed can_publish active
act (reconnected can_publish) active = on_reconnected can_publish active
act (media_connected can_publish) active = on_media_connected can_publish active
act initialize active = initialize_audio_devices active
act mute active = toggle_mute active
act (captured generation track) active = on_captured generation track active
act (published generation) active = on_published generation active
act (initialize_failed generation) active = on_initialize_failed generation active
act (talk pressed immediate) active = set_ptt pressed immediate active
act (choose chosen) active = choose_voice_mode chosen active
act mode_applied active = apply_wanted active
act (state_changes connected) active = record active { room = set_state connected active.room }

unfoldable pub run : List Action → ActiveRoom → ActiveRoom
run [] active = active
run (action ∷ actions) active = run actions (act action active)
