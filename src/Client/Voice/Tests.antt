-- ===== src/Client/Voice/Tests.antt =====
-- A call in which a member talks, loses its permission and sees the room end, as
-- frontend/src/client/app.ts handles it, and the theorems at inputs.
use dawn_mesh_server.Prelude.{◌≡◌, refl, true, false, ◌||◌, List, [], ◌∷◌, ◌++◌, some}
use dawn_mesh_server.Prelude.Maps.{string_eq}
use dawn_mesh_server.Shared.MicrophoneGate.{GatedTrack, set_gate, new_gate, attach}
use dawn_mesh_server.Client.Voice.{
  ActiveRoom, Member, is_true, enter_room, current_mic_wanted, apply_microphone, apply_wanted,
  cancel_ptt_release, dispose_microphone, may_request, is_mismatch, request_media_permission,
  update_speaking_permission, roster_policy, on_voice_policy, end_room,
}
use dawn_mesh_server.Client.Voice.Actions.{
  Action, Action.connecting, Action.media_connected, Action.captured, Action.published, Action.talk,
  Action.state_changes, connect_media, on_media_connected, initialize_audio_devices, is_current,
  on_captured, on_published, set_ptt, act, run,
}
use dawn_mesh_server.Client.Voice.Permission.{gate_wanted, has_gate}
use dawn_mesh_server.Client.Voice.Connected.{any_unheard, run_wanted}
use dawn_mesh_server.Client.Voice.Ending.{is_transmitting, policy_withdrawn, end_room_final}

abbrev live : GatedTrack
live = record { enabled = true; stopped = false }

-- The media connects, the first press asks for the microphone, and it is captured and published.
abbrev talking : List Action
talking = connecting ∷ media_connected true ∷ talk true false ∷ captured 2 live ∷ published 2 ∷ []

talking_runs :
    (gate_wanted (run talking (enter_room "me" false)).mic_gate ≡ true)
    × ((run talking (enter_room "me" false)).audio_ready ≡ true)
    × ((run talking (enter_room "me" false)).ptt ≡ true)
unfolding run act connect_media dispose_microphone cancel_ptt_release on_media_connected
    request_media_permission update_speaking_permission may_request is_mismatch set_ptt
    initialize_audio_devices on_captured is_current on_published apply_wanted apply_microphone
    current_mic_wanted set_gate attach
talking_runs = (refl, refl, refl)

run_wanted_example :
    ((is_true (run talking (enter_room "me" false)).room || any_unheard talking) ≡ true)
    × (((run talking (enter_room "me" false)).is_host
          || (run talking (enter_room "me" false)).policy_can_speak)
        ≡ true)
    × ((run talking (enter_room "me" false)).media_can_publish ≡ true)
    × ((run talking (enter_room "me" false)).muted ≡ false)
run_wanted_example = run_wanted "me" false talking (rw (talking_runs.0, talking_runs.1) refl)

-- A guest that transmits.
abbrev guest : ActiveRoom
guest = record (enter_room "me" false) {
  media_can_publish = true;
  can_speak = true;
  ptt = true;
  room = some true;
  audio_ready = true;
  mic_gate = some (record new_gate { wanted = true; track = some live });
}

abbrev roster : List Member
roster = record { id = "me"; can_speak = false } ∷ []

policy_withdrawn_example :
    ((on_voice_policy "me" false (some roster) guest).can_speak ≡ false)
    × ((on_voice_policy "me" false (some roster) guest).ptt ≡ false)
    × (is_transmitting (on_voice_policy "me" false (some roster) guest).mic_gate ≡ false)
policy_withdrawn_example = policy_withdrawn (some roster) guest refl (unfold roster_policy in refl)

end_room_final_example :
    has_gate
      (run
        (captured 4 live ∷ published 4 ∷ [])
        (end_room (run talking (enter_room "me" false)))).mic_gate
    ≡ false
end_room_final_example = end_room_final "me" false talking (captured 4 live ∷ published 4 ∷ [])

-- While LiveKit resumes its signal connection, the gate of a member that talks stays wanted open.
unheard_wanted :
    let active = run (talking ++ (state_changes false ∷ [])) (enter_room "me" false) in
    (gate_wanted active.mic_gate ≡ true) × (is_true active.room ≡ false)
unfolding run act connect_media dispose_microphone cancel_ptt_release on_media_connected
    request_media_permission update_speaking_permission may_request is_mismatch set_ptt
    initialize_audio_devices on_captured is_current on_published apply_wanted apply_microphone
    current_mic_wanted set_gate attach
unheard_wanted = (refl, refl)
