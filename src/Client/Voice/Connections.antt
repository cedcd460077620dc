-- ===== src/Client/Voice/Connections.antt =====
-- How the end of a room and the media connection of frontend/src/client/app.ts keep who may speak.
use dawn_mesh_server.Prelude.{◌≡◌, refl, arith, Bool, true, false, some, if◌then◌else◌}
use dawn_mesh_server.Prelude.Maps.{string_eq}
use dawn_mesh_server.Shared.MicrophoneGate.{set_gate}
use dawn_mesh_server.Client.Voice.{
  ActiveRoom, set_if_any, apply_wanted, cancel_ptt_release, stop_ptt, dispose_microphone,
  update_speaking_permission, end_room,
}
use dawn_mesh_server.Client.Voice.Actions.{
  set_state, on_permissions_changed, on_reconnecting, on_disconnected, connect_media,
}
use dawn_mesh_server.Client.Voice.Permission.{
  IsReady, IsPermitted, ready-IsHeld, apply_wanted-IsPermitted, update-IsReady, if-IsPermitted,
  let_go-IsReady,
}

pub dispose-IsPermitted :
    (active : ActiveRoom) → IsReady active → IsPermitted (dispose_microphone active)
unfolding dispose_microphone cancel_ptt_release
dispose-IsPermitted active i = record {
  ready = record { speaks = i.speaks; held = ground arith; ended = ground (arith, i.ended) };
  wanted = ground arith;
}

pub end_room-IsPermitted : (active : ActiveRoom) → IsReady active → IsPermitted (end_room active)
unfolding end_room dispose_microphone cancel_ptt_release stop_ptt
end_room-IsPermitted active i = record {
  ready = record { speaks = i.speaks; held = ground arith; ended = ground (arith, i.ended) };
  wanted = ground arith;
}

pub permissions-IsPermitted :
    (can_publish : Bool) (active : ActiveRoom)
    → IsPermitted active
    → IsPermitted (on_permissions_changed can_publish active)
unfolding on_permissions_changed
permissions-IsPermitted can_publish active i =
    let told = record active { media_can_publish = can_publish } in
    let updated = update_speaking_permission told in
    let done = apply_wanted (if updated.can_speak then updated else stop_ptt updated) in
    if-IsPermitted active.leaving active done i (
      apply_wanted-IsPermitted (if updated.can_speak then updated else stop_ptt updated) (
        let_go-IsReady updated (
          update-IsReady told
            (record { held = (ready-IsHeld active i.ready).held; ended = i.ready.ended }))))

-- Without the connection the gate is closed.
pub halted-IsPermitted :
    (active : ActiveRoom)
    → IsReady active
    → IsPermitted (record (stop_ptt active) { mic_gate = set_if_any false active.mic_gate })
unfolding stop_ptt cancel_ptt_release set_gate
halted-IsPermitted active i = record {
  ready = record { speaks = i.speaks; held = ground arith; ended = ground (arith, i.ended) };
  wanted = ground arith;
}

pub reconnecting-IsPermitted :
    (active : ActiveRoom) → IsReady active → IsPermitted (on_reconnecting active)
unfolding on_reconnecting stop_ptt cancel_ptt_release
reconnecting-IsPermitted active i =
    halted-IsPermitted (record active { room = set_state false active.room })
      (record { speaks = i.speaks; held = i.held; ended = ground (arith, i.ended) })

pub left-IsPermitted :
    (active : ActiveRoom) → active.leaving ≡ true → IsReady active → IsPermitted active
left-IsPermitted active leaving i = record { ready = i; wanted = ground (arith, i.ended) }

pub disconnected-IsPermitted :
    (active : ActiveRoom) → IsReady active → IsPermitted (on_disconnected active)
unfolding on_disconnected
disconnected-IsPermitted active i =
    let gone = record active { room = set_state false active.room } in
    let kept : IsReady gone = record { speaks = i.speaks; held = i.held; ended = i.ended } in
    by_leaving active.leaving gone refl kept (halted-IsPermitted gone kept)
  where
    by_leaving :
        (leaving : Bool) (gone : ActiveRoom)
        → gone.leaving ≡ leaving
        → IsReady gone
        → IsPermitted (record (stop_ptt gone) { mic_gate = set_if_any false gone.mic_gate })
        → IsPermitted (
            if leaving
            then gone
            else record (stop_ptt gone) { mic_gate = set_if_any false (stop_ptt gone).mic_gate })
    by_leaving true gone e i h = left-IsPermitted gone e i
    by_leaving false gone e i h = unfold stop_ptt cancel_ptt_release in h

pub connect-IsPermitted :
    (active : ActiveRoom) → IsPermitted active → IsPermitted (connect_media active)
unfolding connect_media dispose_microphone cancel_ptt_release
connect-IsPermitted active i =
    if-IsPermitted active.leaving active
      (record (dispose_microphone active) { mic_task = false; room = some false }) i
      (record {
        ready = record { speaks = i.ready.speaks; held = ground arith; ended = ground arith };
        wanted = ground arith;
      })
