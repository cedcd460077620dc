-- ===== src/Client/Voice/Runs.antt =====
-- What frontend/src/client/app.ts wants of the microphone over any events, and its talk button.
use dawn_mesh_server.Prelude.{
  ◌≡◌, refl, arith, Bool, true, false, ◌&&◌, ◌||◌, not, List, [], ◌∷◌, String, if◌then◌else◌,
}
use dawn_mesh_server.Prelude.Maps.{string_eq}
use dawn_mesh_server.Client.Voice.{
  VoiceMode, ActiveRoom, is_auto, enter_room, apply_wanted, cancel_ptt_release, stop_ptt,
  request_media_permission, update_speaking_permission, end_room,
}
use dawn_mesh_server.Client.Voice.Actions.{
  Action, Action.snapshot, Action.voice_policy, Action.role_changed, Action.room_ends,
  Action.reconnecting, Action.disconnected, Action.connecting, Action.apply_failed,
  Action.release_timer, Action.track_ended, Action.permissions_changed, Action.reconnected,
  Action.media_connected, Action.initialize, Action.mute, Action.captured, Action.published,
  Action.initialize_failed, Action.talk, Action.choose, Action.mode_applied, Action.state_changes,
  set_state, on_media_connected, initialize_audio_devices, set_ptt, on_release_timer,
  choose_voice_mode, toggle_mute, act, run,
}
use dawn_mesh_server.Client.Voice.Permission.{
  IsReady, IsPermitted, ready-IsHeld, apply_wanted-IsPermitted, stop-IsReady, if-IsPermitted,
  snapshot-IsPermitted, voice_policy-IsPermitted, role_changed-IsPermitted,
}
use dawn_mesh_server.Client.Voice.Connections.{
  dispose-IsPermitted, end_room-IsPermitted, permissions-IsPermitted, reconnecting-IsPermitted,
  disconnected-IsPermitted, connect-IsPermitted,
}
use dawn_mesh_server.Client.Voice.Safety.{
  asked-IsReady, reconnected-IsPermitted, initialize-IsPermitted, captured-IsPermitted,
  published-IsPermitted, failed-IsPermitted, apply_failed-IsPermitted, pressed-IsPermitted,
}

talk-IsPermitted :
    (pressed immediate : Bool) (active : ActiveRoom)
    → IsPermitted active
    → IsPermitted (set_ptt pressed immediate active)
unfolding set_ptt cancel_ptt_release
talk-IsPermitted false immediate active i =
    if-IsPermitted (not immediate && active.ptt && active.audio_ready && active.mic_live)
      (record active { ptt_release_timer = true }) (apply_wanted (stop_ptt active))
      (record {
        ready = record { speaks = i.ready.speaks; held = i.ready.held; ended = i.ready.ended };
        wanted = i.wanted;
      })
      (apply_wanted-IsPermitted (stop_ptt active) (stop-IsReady active i.ready))
talk-IsPermitted true immediate active i =
    by_refusal (is_auto active.voice_mode || active.muted || not active.can_speak) refl
  where
    by_refusal :
        (refused : Bool)
        → (is_auto active.voice_mode || active.muted || not active.can_speak) ≡ refused
        → IsPermitted (
            if refused
            then active
            else if active.audio_ready
            then apply_wanted (record active { ptt_release_timer = false; ptt = true })
            else initialize_audio_devices (record active { ptt_release_timer = false; ptt = true }))
    by_refusal true e = i
    by_refusal false e =
        pressed-IsPermitted (record active { ptt_release_timer = false; ptt = true })
          (record {
            ready = record { speaks = i.ready.speaks; held = ground arith; ended = i.ready.ended };
            wanted = i.wanted;
          })

timer-IsPermitted :
    (active : ActiveRoom) → IsPermitted active → IsPermitted (on_release_timer active)
unfolding on_release_timer
timer-IsPermitted active i =
    let let_go = record active { ptt_release_timer = false; ptt = false } in
    if-IsPermitted active.ptt_release_timer (apply_wanted let_go) active
      (apply_wanted-IsPermitted let_go
        (record { speaks = i.ready.speaks; held = ground arith; ended = i.ready.ended }))
      i

choose-IsPermitted :
    (mode : VoiceMode) (active : ActiveRoom)
    → IsPermitted active
    → IsPermitted (choose_voice_mode mode active)
unfolding choose_voice_mode stop_ptt cancel_ptt_release
choose-IsPermitted mode active i =
    let chosen = record active { voice_mode = mode; ptt_release_timer = false; ptt = false } in
    let kept : IsPermitted chosen = record {
      ready = record { speaks = i.ready.speaks; held = ground arith; ended = i.ready.ended };
      wanted = i.wanted;
    } in
    if-IsPermitted active.room_ended active
      (if is_auto mode && not chosen.audio_ready
        then initialize_audio_devices chosen
        else apply_wanted chosen)
      i
      (if-IsPermitted (is_auto mode && not chosen.audio_ready) (initialize_audio_devices chosen)
        (apply_wanted chosen) (initialize-IsPermitted chosen kept)
        (apply_wanted-IsPermitted chosen kept.ready))

mute-IsPermitted : (active : ActiveRoom) → IsPermitted active → IsPermitted (toggle_mute active)
unfolding toggle_mute stop_ptt cancel_ptt_release
mute-IsPermitted active i =
    apply_wanted-IsPermitted
      (record active { muted = not active.muted; ptt_release_timer = false; ptt = false })
      (record { speaks = i.ready.speaks; held = ground arith; ended = i.ready.ended })

media_connected-IsPermitted :
    (can_publish : Bool) (active : ActiveRoom)
    → IsPermitted active
    → IsPermitted (on_media_connected can_publish active)
unfolding on_media_connected
media_connected-IsPermitted can_publish active i =
    let told = record active {
      room = set_state true active.room;
      media_can_publish = can_publish;
    } in
    let asked = request_media_permission true (update_speaking_permission told) in
    let ready = asked-IsReady can_publish active i.ready in
    if-IsPermitted active.leaving active (if asked.audio_ready then apply_wanted asked else asked) i
      (by_audio asked.audio_ready asked refl ready)
  where
    by_audio :
        (audio : Bool) (asked : ActiveRoom)
        → asked.audio_ready ≡ audio
        → IsReady asked
        → IsPermitted (if audio then apply_wanted asked else asked)
    by_audio true asked e ready = apply_wanted-IsPermitted asked ready
    by_audio false asked e ready = record { ready = ready; wanted = ground arith }

pub act-IsPermitted :
    (action : Action) (active : ActiveRoom) → IsPermitted active → IsPermitted (act action active)
unfolding act
act-IsPermitted (snapshot host can_speak members) active i =
    snapshot-IsPermitted host can_speak members active (ready-IsHeld active i.ready)
act-IsPermitted (voice_policy member can_speak members) active i =
    voice_policy-IsPermitted member can_speak members active i
act-IsPermitted (role_changed host members) active i =
    role_changed-IsPermitted host members active (ready-IsHeld active i.ready)
act-IsPermitted room_ends active i =
    if-IsPermitted active.room_ended active (end_room active) i
      (end_room-IsPermitted active i.ready)
act-IsPermitted reconnecting active i = reconnecting-IsPermitted active i.ready
act-IsPermitted disconnected active i = disconnected-IsPermitted active i.ready
act-IsPermitted connecting active i = connect-IsPermitted active i
act-IsPermitted apply_failed active i = apply_failed-IsPermitted active i
act-IsPermitted release_timer active i = timer-IsPermitted active i
act-IsPermitted track_ended active i = dispose-IsPermitted active i.ready
act-IsPermitted (permissions_changed can_publish) active i =
    permissions-IsPermitted can_publish active i
act-IsPermitted (reconnected can_publish) active i =
    reconnected-IsPermitted can_publish active i.ready
act-IsPermitted (media_connected can_publish) active i =
    media_connected-IsPermitted can_publish active i
act-IsPermitted initialize active i = initialize-IsPermitted active i
act-IsPermitted mute active i = mute-IsPermitted active i
act-IsPermitted (captured generation track) active i =
    captured-IsPermitted generation track active i
act-IsPermitted (published generation) active i = published-IsPermitted generation active i
act-IsPermitted (initialize_failed generation) active i = failed-IsPermitted generation active i
act-IsPermitted (talk pressed immediate) active i = talk-IsPermitted pressed immediate active i
act-IsPermitted (choose chosen) active i = choose-IsPermitted chosen active i
act-IsPermitted mode_applied active i = apply_wanted-IsPermitted active i.ready
act-IsPermitted (state_changes connected) active i = record {
  ready = record { speaks = i.ready.speaks; held = i.ready.held; ended = i.ready.ended };
  wanted = i.wanted;
}

pub run-IsPermitted :
    (actions : List Action) (active : ActiveRoom)
    → IsPermitted active
    → IsPermitted (run actions active)
unfolding run
run-IsPermitted [] active i = i
run-IsPermitted (action ∷ actions) active i =
    run-IsPermitted actions (act action active) (act-IsPermitted action active i)

pub enter-IsPermitted :
    (member_id : String) (is_host : Bool) → IsPermitted (enter_room member_id is_host)
enter-IsPermitted member_id is_host = record {
  ready = record { speaks = ground arith; held = ground arith; ended = ground arith };
  wanted = ground arith;
}

-- From the entry into a room, over any events in any order, the talk button is held only in push-to-talk mode, by a member that may speak and publish and is
-- not muted.
pub run_held :
    (member_id : String) (is_host : Bool) (actions : List Action)
    → let active = run actions (enter_room member_id is_host) in
      active.ptt ≡ true
      → (is_auto active.voice_mode ≡ false)
        × (active.muted ≡ false)
        × ((active.is_host || active.policy_can_speak) ≡ true)
        × (active.media_can_publish ≡ true)
run_held member_id is_host actions h =
    let i =
      run-IsPermitted actions (enter_room member_id is_host)
        (enter-IsPermitted member_id is_host) in
    ground (arith, i.ready.held h, i.ready.speaks)
