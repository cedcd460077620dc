-- ===== src/Client/Events/Invitation.antt =====
-- Who sees the invitation code of frontend/src/client/app.ts, and for how long.
use dawn_mesh_server.Prelude.{
  ◌≡◌, refl, Bool, true, false, ◌&&◌, ◌||◌, not, List, [], ◌∷◌, Option, none, some, String,
  if◌then◌else◌,
}
use dawn_mesh_server.Prelude.Maps.{string_eq}
use dawn_mesh_server.Client.Voice.{on_voice_policy}
use dawn_mesh_server.Client.Voice.Actions.{set_ptt}
use dawn_mesh_server.Client.Leaving.{
  Room, Client, any_written, end_kept, end_active, handle_room_ended, leave_active, load_server,
  after_request, leave_asked, leave_room, reveal_invite, hide_invite,
}
use dawn_mesh_server.Client.Events.{
  ManagementEvent, ManagementEvent.snapshot, ManagementEvent.room_updated,
  ManagementEvent.member_left, ManagementEvent.voice_policy, ManagementEvent.role_changed,
  ManagementEvent.session_replaced, ManagementEvent.room_ended, ManagementEvent.error,
  ManagementEvent.other, with_voice, is_host, toast_if_active, is_invite_visible,
  handle_management_event, toggle_invite, page_hidden, Action, Action.heard, Action.toggled,
  Action.timer_fires, Action.hidden, Action.leaves, act, run, enter_card,
}
use dawn_mesh_server.Client.Events.Card.{
  is_card_guarded, unseen-guarded, end_kept-guarded, kept-guarded, hidden-guarded, revealed-guarded,
  policy_kept, snapshot-guarded, role-guarded,
}

left-guarded :
    (active : Option Room) (client : Client)
    → is_card_guarded client.active ≡ true
    → is_card_guarded (leave_active active client).active ≡ true
left-guarded none client h = h
left-guarded (some room) client h = refl

ended-guarded :
    (client : Client)
    → is_card_guarded client.active ≡ true
    → is_card_guarded (handle_room_ended client).active ≡ true
unfolding handle_room_ended
ended-guarded client h = by_active client.active h
  where
    by_active :
        (active : Option Room)
        → is_card_guarded active ≡ true
        → is_card_guarded (end_active active client).active ≡ true
    by_active none g = h
    by_active (some room) g = if-guarded room.voice.room_ended (any_written room.messages)
      where
        if-guarded :
            (ended written : Bool)
            → is_card_guarded
                (if ended
                  then client
                  else if written
                  then record client {
                    active = some (end_kept room);
                    wake_lock = false;
                    toast = some "房间已被群主解散，消息保留到退出房间";
                  }
                  else load_server (leave_active (some room) client)).active
              ≡ true
        if-guarded true written = h
        if-guarded false true = end_kept-guarded room g
        if-guarded false false = refl

requested-guarded :
    (ends_room : Bool) (answer : Option String) (client : Client)
    → is_card_guarded client.active ≡ true
    → is_card_guarded (after_request ends_room answer client).active ≡ true
requested-guarded true (some failure) client h = h
requested-guarded true none client h = left-guarded client.active client h
requested-guarded false (some failure) client h = left-guarded client.active client h
requested-guarded false none client h = left-guarded client.active client h

asked-guarded :
    (active : Option Room) (ends_room is_confirmed : Bool) (answer : Option String)
    (client : Client)
    → is_card_guarded client.active ≡ true
    → is_card_guarded (leave_asked active ends_room is_confirmed answer client).active ≡ true
asked-guarded none ends_room is_confirmed answer client h = h
asked-guarded (some room) ends_room is_confirmed answer client h =
    if-guarded ((room.voice.room_ended && ends_room) || not is_confirmed)
  where
    if-guarded :
        (b : Bool)
        → is_card_guarded (if b then client else after_request ends_room answer client).active
          ≡ true
    if-guarded true = h
    if-guarded false = requested-guarded ends_room answer client h

toast-guarded :
    (text : String) (active : Option Room) (client : Client)
    → is_card_guarded client.active ≡ true
    → is_card_guarded (toast_if_active text active client).active ≡ true
toast-guarded text none client h = h
toast-guarded text (some room) client h = h

event-guarded :
    (event : ManagementEvent) (client : Client)
    → is_card_guarded client.active ≡ true
    → is_card_guarded (handle_management_event event client).active ≡ true
unfolding handle_management_event
event-guarded (snapshot host can_speak members) client h =
    snapshot-guarded host can_speak members client h
event-guarded room_updated client h = h
event-guarded member_left client h = h
event-guarded (voice_policy member_id can_speak members) client h =
    kept-guarded (on_voice_policy member_id can_speak members)
      (policy_kept member_id can_speak members) client h
event-guarded (role_changed host members) client h = role-guarded host members client h
event-guarded session_replaced client h =
    toast-guarded _ client.active (handle_room_ended client) (ended-guarded client h)
event-guarded room_ended client h = ended-guarded client h
event-guarded (error text) client h = toast-guarded _ client.active client h
event-guarded other client h = h

toggled-guarded :
    (client : Client)
    → is_card_guarded client.active ≡ true
    → is_card_guarded (toggle_invite client).active ≡ true
unfolding toggle_invite
toggled-guarded client h = if-guarded (is_invite_visible client.active)
  where
    if-guarded :
        (visible : Bool)
        → is_card_guarded (if visible then hide_invite client else reveal_invite client).active
          ≡ true
    if-guarded true = hidden-guarded client
    if-guarded false = revealed-guarded client h

act-guarded :
    (action : Action) (client : Client)
    → is_card_guarded client.active ≡ true
    → is_card_guarded (act action client).active ≡ true
unfolding act page_hidden leave_room
act-guarded (heard event) client h = event-guarded event client h
act-guarded toggled client h = toggled-guarded client h
act-guarded timer_fires client h = hidden-guarded client
act-guarded hidden client h = hidden-guarded (with_voice (set_ptt false true) client)
act-guarded (leaves ends_room is_confirmed answer) client h =
    asked-guarded client.active ends_room is_confirmed answer client h

runs-guarded :
    (actions : List Action) (client : Client)
    → is_card_guarded client.active ≡ true
    → is_card_guarded (run actions client).active ≡ true
unfolding run
runs-guarded [] client h = h
runs-guarded (action ∷ actions) client h =
    runs-guarded actions (act action client) (act-guarded action client h)

-- From a room that is entered with its code hidden, over any sequence of management events, presses
-- of the button, timer runs, hidings of the page and attempts to leave: while the code is visible,
-- this member is the host, and the timer that hides the code is set unless the room has ended.
pub run_guarded :
    (actions : List Action) (room : Room) (client : Client)
    → client.active ≡ some room
    → room.invite_visible ≡ false
    → is_card_guarded (run actions (enter_card client)).active ≡ true
unfolding enter_card
run_guarded actions room client there hidden_first =
    runs-guarded actions (enter_card client) (if-guarded (is_host client.active))
  where
    before : is_card_guarded client.active ≡ true
    before = rw (there) (unseen-guarded room hidden_first)

    if-guarded :
        (host : Bool)
        → is_card_guarded (if host then reveal_invite client else client).active ≡ true
    if-guarded true = revealed-guarded client before
    if-guarded false = before
