-- ===== src/Client/Events/Tests.antt =====
-- A member that becomes the host and loses the room again, and the theorem at an input.
use dawn_mesh_server.Prelude.{◌≡◌, refl, Bool, true, false, List, [], Option, ◌∷◌, none, some}
use dawn_mesh_server.Client.Voice.{
  enter_room, end_room, apply_roster_speaking_policy, apply_wanted, apply_microphone,
  update_speaking_permission, request_media_permission, may_request, stop_ptt,
}
use dawn_mesh_server.Crypto.Hex.{is_space}
use dawn_mesh_server.Client.Presence.{trim_start, trim_end}
use dawn_mesh_server.Client.Leaving.{
  Room, Client, handle_room_ended, any_written, end_kept, reveal_invite, hide_invite,
}
use dawn_mesh_server.Client.Events.{
  ManagementEvent.role_changed, ManagementEvent.room_ended, Action, Action.heard, Action.toggled,
  Action.timer_fires, take_roster, handle_management_event, handle_role_changed, is_invite_visible,
  act, run, enter_card,
}
use dawn_mesh_server.Client.Events.Card.{is_card_guarded}
use dawn_mesh_server.Client.Events.Invitation.{run_guarded}

abbrev room : Room
room = record {
  voice = enter_room "me" false;
  messages = (104 ∷ 105 ∷ []) ∷ [];
  invite_visible = false;
  invite_timer = false;
  events_reconnect_timer = false;
  media_reconnect_timer = false;
  full_reconnect_timer = false;
  room_ended_timer = false;
  has_worker = true;
  has_audio = true;
}

abbrev client : Client
client = record { active = some room; left = none; wake_lock = true; toast = none; loads = 1 }

abbrev promoted : List Action
promoted = heard (role_changed "me" none) ∷ []

abbrev is_timer_set : Option Room → Bool
is_timer_set none = false
is_timer_set (some room) = room.invite_timer

-- The code is shown to the member that becomes the host, until the timer fires.
promoted_shown :
    let shown = run promoted (enter_card client) in
    (is_invite_visible shown.active ≡ true)
    × (is_timer_set shown.active ≡ true)
    × (is_invite_visible (run (timer_fires ∷ []) shown).active ≡ false)
unfolding run act enter_card handle_management_event handle_role_changed take_roster reveal_invite
    hide_invite apply_roster_speaking_policy apply_wanted apply_microphone
    update_speaking_permission request_media_permission may_request stop_ptt
promoted_shown = (refl, refl, refl)

-- It stays on the screen, with no timer, if the room ends meanwhile.
ended_shown :
    let ended = run (heard room_ended ∷ []) (run promoted (enter_card client)) in
    (is_invite_visible ended.active ≡ true) × (is_timer_set ended.active ≡ false)
unfolding run act enter_card handle_management_event handle_role_changed take_roster reveal_invite
    handle_room_ended any_written end_kept end_room trim_start trim_end is_space
    apply_roster_speaking_policy apply_wanted apply_microphone update_speaking_permission
    request_media_permission may_request stop_ptt
ended_shown = (refl, refl)

run_guarded_example :
    is_card_guarded
      (run
        (heard (role_changed "me" none) ∷ toggled ∷ toggled ∷ heard (role_changed "you" none) ∷ [])
        (enter_card client)).active
    ≡ true
run_guarded_example =
    run_guarded
      (heard (role_changed "me" none) ∷ toggled ∷ toggled ∷ heard (role_changed "you" none) ∷ [])
      room client refl refl
