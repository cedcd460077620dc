-- ===== src/Client/Voice/Safety.antt =====
-- The permission over any sequence of the events of frontend/src/client/app.ts.
use dawn_mesh_server.Prelude.{ℕ, ◌+◌, arith, Bool, true, false, ◌&&◌, ◌||◌, not, if◌then◌else◌}
use dawn_mesh_server.Prelude.Maps.{string_eq}
use dawn_mesh_server.Shared.MicrophoneGate.{GatedTrack, attach}
use dawn_mesh_server.Client.Voice.{
  ActiveRoom, is_true, apply_wanted, cancel_ptt_release, stop_ptt, request_media_permission,
  update_speaking_permission,
}
use dawn_mesh_server.Client.Voice.Actions.{
  set_state, on_reconnected, initialize_audio_devices, is_current, on_captured, on_published,
  on_initialize_failed, on_apply_failed,
}
use dawn_mesh_server.Client.Voice.Permission.{
  IsReady, IsPermitted, ready-IsHeld, apply_wanted-IsPermitted, request-IsReady, update-IsReady,
  if-IsPermitted,
}

pub asked-IsReady :
    (can_publish : Bool) (active : ActiveRoom)
    → IsReady active
    → IsReady (
        request_media_permission true (
          update_speaking_permission
            (record active { room = set_state true active.room; media_can_publish = can_publish })))
asked-IsReady can_publish active i =
    let told = record active {
      room = set_state true active.room;
      media_can_publish = can_publish;
    } in
    request-IsReady true (update_speaking_permission told)
      (update-IsReady told (record { held = (ready-IsHeld active i).held; ended = i.ended }))

pub reconnected-IsPermitted :
    (can_publish : Bool) (active : ActiveRoom)
    → IsReady active
    → IsPermitted (on_reconnected can_publish active)
unfolding on_reconnected
reconnected-IsPermitted can_publish active i =
    apply_wanted-IsPermitted
      (request_media_permission true (
        update_speaking_permission
          (record active { room = set_state true active.room; media_can_publish = can_publish })))
      (asked-IsReady can_publish active i)

pub initialize-IsPermitted :
    (active : ActiveRoom) → IsPermitted active → IsPermitted (initialize_audio_devices active)
unfolding initialize_audio_devices
initialize-IsPermitted active i =
    if-IsPermitted
      (active.mic_task || (active.audio_ready && active.mic_live) || not (is_true active.room))
      active (record active { audio_generation = active.audio_generation + 1; mic_task = true }) i
      (record {
        ready = record { speaks = i.ready.speaks; held = i.ready.held; ended = i.ready.ended };
        wanted = i.wanted;
      })

pub captured-IsPermitted :
    (generation : ℕ) (track : GatedTrack) (active : ActiveRoom)
    → IsPermitted active
    → IsPermitted (on_captured generation track active)
unfolding on_captured is_current attach
captured-IsPermitted generation track active i = record {
  ready = record {
    speaks = ground (arith, i.ready.speaks);
    held = ground (arith, i.ready.held);
    ended = ground (arith, i.ready.ended);
  };
  wanted = ground (arith, i.wanted);
}

pub published-IsPermitted :
    (generation : ℕ) (active : ActiveRoom)
    → IsPermitted active
    → IsPermitted (on_published generation active)
unfolding on_published
published-IsPermitted generation active i =
    let ready = record active { audio_ready = true } in
    let applied =
      apply_wanted-IsPermitted ready
        (record { speaks = i.ready.speaks; held = i.ready.held; ended = i.ready.ended }) in
    if-IsPermitted (is_current generation active) (record (apply_wanted ready) { mic_task = false })
      active
      (record {
        ready = record {
          speaks = applied.ready.speaks;
          held = applied.ready.held;
          ended = applied.ready.ended;
        };
        wanted = applied.wanted;
      })
      i

pub failed-IsPermitted :
    (generation : ℕ) (active : ActiveRoom)
    → IsPermitted active
    → IsPermitted (on_initialize_failed generation active)
unfolding on_initialize_failed stop_ptt cancel_ptt_release
failed-IsPermitted generation active i = record {
  ready = record {
    speaks = ground (arith, i.ready.speaks);
    held = ground (arith, i.ready.held);
    ended = ground (arith, i.ready.ended);
  };
  wanted = ground (arith, i.wanted);
}

pub apply_failed-IsPermitted :
    (active : ActiveRoom) → IsPermitted active → IsPermitted (on_apply_failed active)
unfolding on_apply_failed stop_ptt cancel_ptt_release
apply_failed-IsPermitted active i = record {
  ready = record {
    speaks = i.ready.speaks;
    held = ground arith;
    ended = ground (arith, i.ready.ended);
  };
  wanted = ground (arith, i.wanted);
}

pub pressed-IsPermitted :
    (pressed : ActiveRoom)
    → IsPermitted pressed
    → IsPermitted
        (if pressed.audio_ready then apply_wanted pressed else initialize_audio_devices pressed)
pressed-IsPermitted pressed i =
    if-IsPermitted pressed.audio_ready (apply_wanted pressed) (initialize_audio_devices pressed)
      (apply_wanted-IsPermitted pressed i.ready) (initialize-IsPermitted pressed i)
