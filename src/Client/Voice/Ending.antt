-- ===== src/Client/Voice/Ending.antt =====
-- A permission that is withdrawn and a room that ends, in frontend/src/client/app.ts.
use dawn_mesh_server.Prelude.{
  ◌≡◌, refl, ◌∙◌, arith, Bool, true, false, ◌&&◌, ◌||◌, List, [], ◌∷◌, Option, none, some, String,
  if◌then◌else◌,
}
use dawn_mesh_server.Prelude.Maps.{◌===◌, string_eq}
use dawn_mesh_server.Shared.MicrophoneGate.{Gate, set_gate}
use dawn_mesh_server.Shared.MicrophoneGate.Invariant.{is_enabled}
use dawn_mesh_server.Client.Voice.{
  ActiveRoom, Member, or_else, current_mic_wanted, apply_microphone, apply_wanted,
  cancel_ptt_release, stop_ptt, dispose_microphone, request_media_permission,
  update_speaking_permission, on_snapshot, on_role_changed, enter_room,
  apply_roster_speaking_policy, roster_policy, on_own_policy, on_voice_policy, end_room,
}
use dawn_mesh_server.Client.Voice.Actions.{
  Action, Action.snapshot, Action.voice_policy, Action.role_changed, Action.room_ends,
  Action.reconnecting, Action.disconnected, Action.connecting, Action.apply_failed,
  Action.release_timer, Action.track_ended, Action.permissions_changed, Action.reconnected,
  Action.media_connected, Action.initialize, Action.mute, Action.captured, Action.published,
  Action.initialize_failed, Action.talk, Action.choose, Action.mode_applied, Action.state_changes,
  set_state, on_permissions_changed, on_reconnecting, on_reconnected, on_disconnected,
  connect_media, on_media_connected, initialize_audio_devices, is_current, on_captured,
  on_published, on_initialize_failed, on_apply_failed, set_ptt, on_release_timer, choose_voice_mode,
  toggle_mute, act, run,
}
use dawn_mesh_server.Client.Voice.Permission.{has_gate}
use dawn_mesh_server.Client.Voice.Connections.{end_room-IsPermitted}
use dawn_mesh_server.Client.Voice.Runs.{run-IsPermitted, enter-IsPermitted}

-- Whether the track of the microphone is enabled.
abbrev pub is_transmitting : Option Gate → Bool
is_transmitting none = false
is_transmitting (some gate) = is_enabled gate.track

-- What applying an unwanted microphone leaves.
refused-closed :
    (active : ActiveRoom)
    → active.can_speak ≡ false
    → (is_transmitting (apply_wanted active).mic_gate ≡ false)
      × ((apply_wanted active).can_speak ≡ false)
      × ((apply_wanted active).ptt ≡ active.ptt)
unfolding apply_wanted apply_microphone current_mic_wanted set_gate
refused-closed active h = ground arith

update-refused :
    (active : ActiveRoom)
    → ((active.is_host || active.policy_can_speak) && active.media_can_publish) ≡ false
    → ((update_speaking_permission active).can_speak ≡ false)
      × ((update_speaking_permission active).ptt ≡ false)
unfolding update_speaking_permission request_media_permission stop_ptt cancel_ptt_release
update-refused active h = ground arith

-- Whatever the room is, the roster is applied with its policy for this member: without it, or
-- without the media permission, the talk button is let go and the track is closed at once.
pub roster_refused :
    (active : ActiveRoom)
    → ((active.is_host || roster_policy active.member_id active.members active.policy_can_speak)
        && active.media_can_publish)
      ≡ false
    → let after = apply_roster_speaking_policy active in
      (after.can_speak ≡ false) × (after.ptt ≡ false) × (is_transmitting after.mic_gate ≡ false)
unfolding apply_roster_speaking_policy
roster_refused active h =
    let told = record active {
      policy_can_speak = roster_policy active.member_id active.members active.policy_can_speak;
    } in
    let refused = update-refused told h in
    let closed = refused-closed (update_speaking_permission told) refused.0 in
    (closed.1, closed.2 ∙ refused.1, closed.0)

own_keeps :
    (active : ActiveRoom)
    → ((on_own_policy false active).is_host ≡ active.is_host)
      × ((on_own_policy false active).policy_can_speak ≡ false)
      × ((on_own_policy false active).member_id ≡ active.member_id)
      × ((on_own_policy false active).members ≡ active.members)
unfolding on_own_policy update_speaking_permission request_media_permission stop_ptt
    cancel_ptt_release apply_wanted apply_microphone
own_keeps active = ground arith

-- When a `voice_policy` event withdraws this member's permission, and the roster that comes with it
-- or was there does not grant it, a member that is not the host can no longer speak, its talk button
-- is let go, and its track is closed at once.
pub policy_withdrawn :
    (members : Option (List Member)) (active : ActiveRoom)
    → active.is_host ≡ false
    → roster_policy active.member_id (or_else members active.members) false ≡ false
    → let after = on_voice_policy active.member_id false members active in
      (after.can_speak ≡ false) × (after.ptt ≡ false) × (is_transmitting after.mic_gate ≡ false)
unfolding on_voice_policy
policy_withdrawn members active guest roster =
    let own = on_own_policy false active in
    let kept = own_keeps active in
    let told = record own { members = or_else members own.members } in
    let none_left : ((told.is_host
            || roster_policy told.member_id told.members told.policy_can_speak)
          && told.media_can_publish)
        ≡ false =
      rw (kept.0, kept.1, kept.2, kept.3, guest, roster) refl in
    rw (same active.member_id) (roster_refused told none_left)
  where
    same : (id : String) → (id === id) ≡ true
    same id = (string_eq.beq_iff id id).1 refl

update-leaving :
    (active : ActiveRoom) → ((update_speaking_permission active).leaving ≡ active.leaving)
unfolding update_speaking_permission request_media_permission stop_ptt cancel_ptt_release
update-leaving active = ground arith

roster-leaving :
    (active : ActiveRoom) → (apply_roster_speaking_policy active).leaving ≡ active.leaving
unfolding apply_roster_speaking_policy apply_wanted apply_microphone
roster-leaving active = update-leaving (record active {
  policy_can_speak = roster_policy active.member_id active.members active.policy_can_speak;
})

request-leaving :
    (force : Bool) (active : ActiveRoom)
    → (request_media_permission force active).leaving ≡ active.leaving
unfolding request_media_permission
request-leaving force active = ground arith

own-leaving :
    (can_speak : Bool) (active : ActiveRoom)
    → (on_own_policy can_speak active).leaving ≡ active.leaving
unfolding on_own_policy apply_wanted apply_microphone stop_ptt cancel_ptt_release
own-leaving can_speak active =
    ground (arith, update-leaving (record active { policy_can_speak = can_speak }))

-- A room that is left stays so.
act-leaving :
    (action : Action) (active : ActiveRoom)
    → active.leaving ≡ true
    → (act action active).leaving ≡ true
unfolding act on_snapshot on_voice_policy on_role_changed end_room dispose_microphone
    cancel_ptt_release stop_ptt apply_wanted apply_microphone on_permissions_changed on_reconnecting
    on_reconnected on_disconnected connect_media on_media_connected initialize_audio_devices
    is_current on_captured on_published on_initialize_failed on_apply_failed set_ptt
    on_release_timer choose_voice_mode toggle_mute
act-leaving (snapshot host can_speak members) active h =
    roster-leaving (record active {
      is_host = host === active.member_id;
      policy_can_speak = or_else can_speak active.policy_can_speak;
      members = or_else members active.members;
    })
    ∙ h
act-leaving (voice_policy member can_speak members) active h =
    let own = if member === active.member_id then on_own_policy can_speak active else active in
    roster-leaving (record own { members = or_else members own.members })
    ∙ ground (arith, own-leaving can_speak active)
act-leaving (role_changed host members) active h =
    roster-leaving (record active {
      is_host = host === active.member_id;
      members = or_else members active.members;
    })
    ∙ h
act-leaving room_ends active h = ground arith
act-leaving reconnecting active h = h
act-leaving disconnected active h = ground arith
act-leaving connecting active h = ground arith
act-leaving apply_failed active h = h
act-leaving release_timer active h = ground arith
act-leaving track_ended active h = h
act-leaving (permissions_changed can_publish) active h = ground arith
act-leaving (reconnected can_publish) active h =
    let told = record active {
      room = set_state true active.room;
      media_can_publish = can_publish;
    } in
    request-leaving true (update_speaking_permission told) ∙ update-leaving told ∙ h
act-leaving (media_connected can_publish) active h = ground arith
act-leaving initialize active h = ground arith
act-leaving mute active h = h
act-leaving (captured generation track) active h = ground arith
act-leaving (published generation) active h = ground arith
act-leaving (initialize_failed generation) active h = ground arith
act-leaving (talk false immediate) active h = ground arith
act-leaving (talk true immediate) active h = ground arith
act-leaving (choose chosen) active h = ground arith
act-leaving mode_applied active h = h
act-leaving (state_changes connected) active h = h

run-leaving :
    (actions : List Action) (active : ActiveRoom)
    → active.leaving ≡ true
    → (run actions active).leaving ≡ true
unfolding run
run-leaving [] active h = h
run-leaving (action ∷ actions) active h =
    run-leaving actions (act action active) (act-leaving action active h)

-- Once a room that was entered has ended, no later event, not even a capture that was under way,
-- gives it a microphone again.
pub end_room_final :
    (member_id : String) (is_host : Bool) (before later : List Action)
    → has_gate (run later (end_room (run before (enter_room member_id is_host)))).mic_gate ≡ false
end_room_final member_id is_host before later =
    let active = run before (enter_room member_id is_host) in
    let i =
      run-IsPermitted before (enter_room member_id is_host) (enter-IsPermitted member_id is_host) in
    let ended = end_room-IsPermitted active i.ready in
    let last = run-IsPermitted later (end_room active) ended in
    last.ready.ended (run-leaving later (end_room active) (left active))
  where
    left : (active : ActiveRoom) → (end_room active).leaving ≡ true
    left active = unfold end_room in refl
