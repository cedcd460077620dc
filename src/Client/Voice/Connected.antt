-- ===== src/Client/Voice/Connected.antt =====
-- The connection while the microphone is wanted, over the events of frontend/src/client/app.ts.
use dawn_mesh_server.Prelude.{
  ◌≡◌, refl, arith, Bool, true, false, ◌&&◌, ◌||◌, not, List, [], ◌∷◌, String, if◌then◌else◌, ℕ,
}
use dawn_mesh_server.Prelude.Maps.{string_eq}
use dawn_mesh_server.Shared.MicrophoneGate.{GatedTrack, set_gate, attach}
use dawn_mesh_server.Client.Voice.{
  VoiceMode, ActiveRoom, is_true, is_auto, current_mic_wanted, apply_microphone, apply_wanted,
  cancel_ptt_release, stop_ptt, dispose_microphone, request_media_permission,
  update_speaking_permission, apply_roster_speaking_policy, on_snapshot, on_voice_policy,
  on_role_changed, end_room, enter_room,
}
use dawn_mesh_server.Client.Voice.Actions.{
  Action, Action.snapshot, Action.voice_policy, Action.role_changed, Action.room_ends,
  Action.reconnecting, Action.disconnected, Action.connecting, Action.apply_failed,
  Action.release_timer, Action.track_ended, Action.permissions_changed, Action.reconnected,
  Action.media_connected, Action.initialize, Action.mute, Action.captured, Action.published,
  Action.initialize_failed, Action.talk, Action.choose, Action.mode_applied, Action.state_changes,
  set_state, on_media_connected, on_permissions_changed, on_reconnecting, on_reconnected,
  on_disconnected, connect_media, is_current, on_captured, on_published, on_initialize_failed,
  on_apply_failed, initialize_audio_devices, set_ptt, on_release_timer, choose_voice_mode,
  toggle_mute, act, run,
}
use dawn_mesh_server.Client.Voice.Permission.{gate_wanted, IsReady, IsPermitted}
use dawn_mesh_server.Client.Voice.Runs.{act-IsPermitted, run-IsPermitted, enter-IsPermitted}

-- A microphone that is ready is wanted only while the room is connected.
is_connected : ActiveRoom → Bool
is_connected active = not (gate_wanted active.mic_gate && active.audio_ready) || is_true active.room

abbrev pub is_unheard : Action → Bool
is_unheard (state_changes connected) = true
is_unheard _ = false

-- Whether the state of the room changed with no event that has a handler.
pub any_unheard : List Action → Bool
any_unheard [] = false
any_unheard (action ∷ actions) = is_unheard action || any_unheard actions

applied_connected : (active : ActiveRoom) → is_connected (apply_wanted active) ≡ true
unfolding is_connected apply_wanted apply_microphone current_mic_wanted set_gate
applied_connected active = ground arith

if_connected :
    (test : Bool) (a b : ActiveRoom)
    → is_connected a ≡ true
    → is_connected b ≡ true
    → is_connected (if test then a else b) ≡ true
if_connected true a b ha hb = ha
if_connected false a b ha hb = hb

initialize_connected :
    (active : ActiveRoom)
    → is_connected active ≡ true
    → is_connected (initialize_audio_devices active) ≡ true
unfolding is_connected initialize_audio_devices
initialize_connected active h = ground arith

roster_connected : (active : ActiveRoom) → is_connected (apply_roster_speaking_policy active) ≡ true
unfolding apply_roster_speaking_policy
roster_connected active = applied_connected _

ended_connected : (active : ActiveRoom) → is_connected (end_room active) ≡ true
unfolding is_connected end_room dispose_microphone stop_ptt cancel_ptt_release
ended_connected active = ground arith

reconnecting_connected : (active : ActiveRoom) → is_connected (on_reconnecting active) ≡ true
unfolding is_connected on_reconnecting stop_ptt cancel_ptt_release set_gate
reconnecting_connected active = ground arith

disconnected_connected :
    (active : ActiveRoom) → IsReady active → is_connected (on_disconnected active) ≡ true
unfolding is_connected on_disconnected stop_ptt cancel_ptt_release set_gate
disconnected_connected active i = ground (arith, i.ended)

disposed_connected : (active : ActiveRoom) → is_connected (dispose_microphone active) ≡ true
unfolding is_connected dispose_microphone cancel_ptt_release
disposed_connected active = ground arith

connecting_connected :
    (active : ActiveRoom) → is_connected active ≡ true → is_connected (connect_media active) ≡ true
unfolding is_connected connect_media dispose_microphone cancel_ptt_release
connecting_connected active h = ground arith

failed_connected :
    (active : ActiveRoom)
    → is_connected active ≡ true
    → is_connected (on_apply_failed active) ≡ true
unfolding is_connected on_apply_failed stop_ptt cancel_ptt_release
failed_connected active h = ground arith

joined_connected :
    (can_publish : Bool) (active : ActiveRoom)
    → is_connected active ≡ true
    → is_connected (on_media_connected can_publish active) ≡ true
unfolding on_media_connected
joined_connected can_publish active h =
    let told = record active {
      room = set_state true active.room;
      media_can_publish = can_publish;
    } in
    let asked = request_media_permission true (update_speaking_permission told) in
    if_connected active.leaving active (if asked.audio_ready then apply_wanted asked else asked) h
      (by_audio asked.audio_ready asked refl)
  where
    by_audio :
        (audio : Bool) (asked : ActiveRoom)
        → asked.audio_ready ≡ audio
        → is_connected (if audio then apply_wanted asked else asked) ≡ true
    by_audio true asked e = applied_connected asked
    by_audio false asked e = unfold is_connected in ground arith

captured_connected :
    (generation : ℕ) (track : GatedTrack) (active : ActiveRoom)
    → is_connected active ≡ true
    → is_connected (on_captured generation track active) ≡ true
unfolding is_connected on_captured attach
captured_connected generation track active h = ground arith

published_connected :
    (generation : ℕ) (active : ActiveRoom)
    → is_connected active ≡ true
    → is_connected (on_published generation active) ≡ true
unfolding on_published is_connected
published_connected generation active h =
    if_connected (is_current generation active)
      (record (apply_wanted (record active { audio_ready = true })) { mic_task = false }) active
      (applied_connected (record active { audio_ready = true })) h

not_initialized_connected :
    (generation : ℕ) (active : ActiveRoom)
    → is_connected active ≡ true
    → is_connected (on_initialize_failed generation active) ≡ true
unfolding is_connected on_initialize_failed stop_ptt cancel_ptt_release
not_initialized_connected generation active h = ground arith

talk_connected :
    (pressed immediate : Bool) (active : ActiveRoom)
    → is_connected active ≡ true
    → is_connected (set_ptt pressed immediate active) ≡ true
unfolding set_ptt is_connected cancel_ptt_release
talk_connected false immediate active h =
    if_connected (not immediate && active.ptt && active.audio_ready && active.mic_live)
      (record active { ptt_release_timer = true }) (apply_wanted (stop_ptt active)) h
      (applied_connected (stop_ptt active))
talk_connected true immediate active h =
    let pressed = record active { ptt_release_timer = false; ptt = true } in
    if_connected (is_auto active.voice_mode || active.muted || not active.can_speak) active
      (if pressed.audio_ready then apply_wanted pressed else initialize_audio_devices pressed) h
      (if_connected pressed.audio_ready (apply_wanted pressed) (initialize_audio_devices pressed)
        (applied_connected pressed) (initialize_connected pressed h))

choose_connected :
    (mode : VoiceMode) (active : ActiveRoom)
    → is_connected active ≡ true
    → is_connected (choose_voice_mode mode active) ≡ true
unfolding choose_voice_mode is_connected stop_ptt cancel_ptt_release
choose_connected mode active h =
    let chosen = record active { voice_mode = mode; ptt_release_timer = false; ptt = false } in
    if_connected active.room_ended active
      (if is_auto mode && not chosen.audio_ready
        then initialize_audio_devices chosen
        else apply_wanted chosen)
      h
      (if_connected (is_auto mode && not chosen.audio_ready) (initialize_audio_devices chosen)
        (apply_wanted chosen) (initialize_connected chosen h) (applied_connected chosen))

permissions_connected :
    (can_publish : Bool) (active : ActiveRoom)
    → is_connected active ≡ true
    → is_connected (on_permissions_changed can_publish active) ≡ true
unfolding on_permissions_changed
permissions_connected can_publish active h =
    if_connected active.leaving active _ h (applied_connected _)

timer_connected :
    (active : ActiveRoom)
    → is_connected active ≡ true
    → is_connected (on_release_timer active) ≡ true
unfolding on_release_timer
timer_connected active h = if_connected active.ptt_release_timer _ active (applied_connected _) h

act_connected :
    (action : Action) (active : ActiveRoom)
    → IsPermitted active
    → is_unheard action ≡ false
    → is_connected active ≡ true
    → is_connected (act action active) ≡ true
unfolding act on_snapshot on_voice_policy on_role_changed on_reconnected toggle_mute
act_connected (snapshot host can_speak members) active i heard h = applied_connected _
act_connected (voice_policy member can_speak members) active i heard h = roster_connected _
act_connected (role_changed host members) active i heard h = roster_connected _
act_connected room_ends active i heard h =
    if_connected active.room_ended active (end_room active) h (ended_connected active)
act_connected reconnecting active i heard h = reconnecting_connected active
act_connected disconnected active i heard h = disconnected_connected active i.ready
act_connected connecting active i heard h = connecting_connected active h
act_connected apply_failed active i heard h = failed_connected active h
act_connected release_timer active i heard h = timer_connected active h
act_connected track_ended active i heard h = disposed_connected active
act_connected (permissions_changed can_publish) active i heard h =
    permissions_connected can_publish active h
act_connected (reconnected can_publish) active i heard h = applied_connected _
act_connected (media_connected can_publish) active i heard h = joined_connected can_publish active h
act_connected initialize active i heard h = initialize_connected active h
act_connected mute active i heard h = applied_connected _
act_connected (captured generation track) active i heard h =
    captured_connected generation track active h
act_connected (published generation) active i heard h = published_connected generation active h
act_connected (initialize_failed generation) active i heard h =
    not_initialized_connected generation active h
act_connected (talk pressed immediate) active i heard h = talk_connected pressed immediate active h
act_connected (choose chosen) active i heard h = choose_connected chosen active h
act_connected mode_applied active i heard h = applied_connected active
act_connected (state_changes connected) active i heard h = absurd (ground arith)

run_connected :
    (actions : List Action) (active : ActiveRoom)
    → IsPermitted active
    → is_connected active ≡ true
    → any_unheard actions ≡ false
    → is_connected (run actions active) ≡ true
unfolding run any_unheard
run_connected [] active i h heard = h
run_connected (action ∷ actions) active i h heard =
    run_connected actions (act action active) (act-IsPermitted action active i)
      (act_connected action active i (ground arith) h) (ground arith)

-- From the entry into a room, over any events in any order, the gate of a microphone that is ready is
-- wanted open only while this member may speak and publish and is not muted, and while the room is
-- connected, unless the state of the room changed with no event that has a handler.
pub run_wanted :
    (member_id : String) (is_host : Bool) (actions : List Action)
    → let active = run actions (enter_room member_id is_host) in
      (gate_wanted active.mic_gate && active.audio_ready) ≡ true
      → ((is_true active.room || any_unheard actions) ≡ true)
        × ((active.is_host || active.policy_can_speak) ≡ true)
        × (active.media_can_publish ≡ true)
        × (active.muted ≡ false)
run_wanted member_id is_host actions h =
    let i =
      run-IsPermitted actions (enter_room member_id is_host)
        (enter-IsPermitted member_id is_host) in
    ground (arith, connected (any_unheard actions) refl, i.wanted h, i.ready.speaks)
  where
    entered : is_connected (enter_room member_id is_host) ≡ true
    entered = unfold is_connected in refl

    connected :
        (unheard : Bool)
        → any_unheard actions ≡ unheard
        → (is_true (run actions (enter_room member_id is_host)).room || unheard) ≡ true
    connected true e = ground arith
    connected false e =
        let c =
          run_connected actions (enter_room member_id is_host) (enter-IsPermitted member_id is_host)
            entered e in
        unfold is_connected in ground (arith, c)
