-- ===== src/Client/Voice/Permission.antt =====
-- Every path of frontend/src/client/app.ts keeps the microphone within the speaking permission.
use dawn_mesh_server.Prelude.{
  ◌≡◌, arith, Bool, true, false, ◌&&◌, ◌||◌, not, List, Option, none, some, String, if◌then◌else◌,
}
use dawn_mesh_server.Prelude.Maps.{◌===◌, string_eq}
use dawn_mesh_server.Shared.MicrophoneGate.{Gate, set_gate}
use dawn_mesh_server.Client.Voice.{
  ActiveRoom, Member, is_auto, or_else, current_mic_wanted, apply_microphone, apply_wanted,
  cancel_ptt_release, stop_ptt, request_media_permission, update_speaking_permission,
  apply_roster_speaking_policy, roster_policy, on_snapshot, on_own_policy, on_voice_policy,
  on_role_changed,
}

abbrev pub gate_wanted : Option Gate → Bool
gate_wanted none = false
gate_wanted (some gate) = gate.wanted

abbrev pub has_gate : Option Gate → Bool
has_gate none = false
has_gate (some gate) = true

-- A held talk button is not muted, the mode is push-to-talk, and a room that is left has no gate.
pub record IsHeld (active : ActiveRoom) : Type 0 where
  pub held : active.ptt ≡ true → (not active.muted && not (is_auto active.voice_mode)) ≡ true
  pub ended : active.leaving ≡ true → has_gate active.mic_gate ≡ false

-- The permission is up to date, and a held button has it.
pub record IsReady (active : ActiveRoom) : Type 0 where
  pub speaks :
      active.can_speak ≡ ((active.is_host || active.policy_can_speak) && active.media_can_publish)
  pub held :
      active.ptt ≡ true
      → (active.can_speak && not active.muted && not (is_auto active.voice_mode)) ≡ true
  pub ended : active.leaving ≡ true → has_gate active.mic_gate ≡ false

-- And the gate of a microphone that is ready is only wanted open with it.
pub record IsPermitted (active : ActiveRoom) : Type 0 where
  pub ready : IsReady active
  pub wanted :
      (gate_wanted active.mic_gate && active.audio_ready) ≡ true
      → (active.can_speak && not active.muted) ≡ true

pub ready-IsHeld : (active : ActiveRoom) → IsReady active → IsHeld active
ready-IsHeld active i = record { held = ground (arith, i.held); ended = i.ended }

pub apply_wanted-IsPermitted :
    (active : ActiveRoom) → IsReady active → IsPermitted (apply_wanted active)
unfolding apply_wanted apply_microphone current_mic_wanted set_gate
apply_wanted-IsPermitted active i = record {
  ready = record { speaks = i.speaks; held = i.held; ended = ground (arith, i.ended) };
  wanted = ground arith;
}

pub request-IsReady :
    (force : Bool) (active : ActiveRoom)
    → IsReady active
    → IsReady (request_media_permission force active)
unfolding request_media_permission
request-IsReady force active i = record {
  speaks = ground (arith, i.speaks);
  held = ground (arith, i.held);
  ended = ground (arith, i.ended);
}

pub update-IsReady :
    (active : ActiveRoom) → IsHeld active → IsReady (update_speaking_permission active)
unfolding update_speaking_permission stop_ptt
update-IsReady active i =
    request-IsReady false
      (if (active.is_host || active.policy_can_speak) && active.media_can_publish
        then record active {
          can_speak = (active.is_host || active.policy_can_speak) && active.media_can_publish;
        }
        else stop_ptt (record active {
          can_speak = (active.is_host || active.policy_can_speak) && active.media_can_publish;
        }))
      (record {
        speaks = ground arith;
        held = ground (arith, i.held);
        ended = ground (arith, i.ended);
      })

pub stop-IsReady : (active : ActiveRoom) → IsReady active → IsReady (stop_ptt active)
unfolding stop_ptt cancel_ptt_release
stop-IsReady active i = record {
  speaks = i.speaks;
  held = ground arith;
  ended = ground (arith, i.ended);
}

pub if-IsReady :
    (test : Bool) (a b : ActiveRoom) → IsReady a → IsReady b → IsReady (if test then a else b)
if-IsReady true a b ha hb = ha
if-IsReady false a b ha hb = hb

pub if-IsPermitted :
    (test : Bool) (a b : ActiveRoom)
    → IsPermitted a
    → IsPermitted b
    → IsPermitted (if test then a else b)
if-IsPermitted true a b ha hb = ha
if-IsPermitted false a b ha hb = hb

pub roster-IsPermitted :
    (active : ActiveRoom) → IsHeld active → IsPermitted (apply_roster_speaking_policy active)
unfolding apply_roster_speaking_policy
roster-IsPermitted active i =
    let updated = record active {
      policy_can_speak = roster_policy active.member_id active.members active.policy_can_speak;
    } in
    apply_wanted-IsPermitted (update_speaking_permission updated)
      (update-IsReady updated (record { held = i.held; ended = i.ended }))

pub snapshot-IsPermitted :
    (host : String) (can_speak : Option Bool) (members : Option (List Member)) (active : ActiveRoom)
    → IsHeld active
    → IsPermitted (on_snapshot host can_speak members active)
unfolding on_snapshot
snapshot-IsPermitted host can_speak members active i =
    let told = record active {
      is_host = host === active.member_id;
      policy_can_speak = or_else can_speak active.policy_can_speak;
      members = or_else members active.members;
    } in
    apply_wanted-IsPermitted (apply_roster_speaking_policy told)
      (roster-IsPermitted told (record { held = i.held; ended = i.ended })).ready

-- A permission that was just updated, and a button that is let go if it is refused.
pub let_go-IsReady :
    (active : ActiveRoom)
    → IsReady active
    → IsReady (if active.can_speak then active else stop_ptt active)
let_go-IsReady active i =
    if-IsReady active.can_speak active (stop_ptt active) i (stop-IsReady active i)

pub own-IsPermitted :
    (can_speak : Bool) (active : ActiveRoom)
    → IsHeld active
    → IsPermitted (on_own_policy can_speak active)
unfolding on_own_policy
own-IsPermitted can_speak active i =
    let told = record active { policy_can_speak = can_speak } in
    let updated = update_speaking_permission told in
    apply_wanted-IsPermitted (if updated.can_speak then updated else stop_ptt updated)
      (let_go-IsReady updated (update-IsReady told (record { held = i.held; ended = i.ended })))

pub voice_policy-IsPermitted :
    (member : String) (can_speak : Bool) (members : Option (List Member)) (active : ActiveRoom)
    → IsPermitted active
    → IsPermitted (on_voice_policy member can_speak members active)
unfolding on_voice_policy
voice_policy-IsPermitted member can_speak members active i =
    let own = if member === active.member_id then on_own_policy can_speak active else active in
    let kept =
      if-IsPermitted (member === active.member_id) (on_own_policy can_speak active) active
        (own-IsPermitted can_speak active (ready-IsHeld active i.ready)) i in
    roster-IsPermitted (record own { members = or_else members own.members })
      (record { held = (ready-IsHeld own kept.ready).held; ended = kept.ready.ended })

pub role_changed-IsPermitted :
    (host : String) (members : Option (List Member)) (active : ActiveRoom)
    → IsHeld active
    → IsPermitted (on_role_changed host members active)
unfolding on_role_changed
role_changed-IsPermitted host members active i =
    roster-IsPermitted
      (record active {
        is_host = host === active.member_id;
        members = or_else members active.members;
      })
      (record { held = i.held; ended = i.ended })
