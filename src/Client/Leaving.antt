-- ===== src/Client/Leaving.antt =====
-- How a room is left: `cleanupRoom`, `handleRoomEnded`, `leaveRoom`, `revealInvite`, `hideInvite` and
-- the wake lock of frontend/src/client/app.ts. An `await` within them is not interleaved with others.
pub mod Quiet
mod Tests
use dawn_mesh_server.Prelude.{
  ℕ, ◌+◌, Bool, true, false, ◌&&◌, ◌||◌, not, List, [], ◌∷◌, Option, none, some, String,
  if◌then◌else◌,
}
use dawn_mesh_server.Crypto.Base64.{Text}
use dawn_mesh_server.Client.Presence.{trim_start, trim_end}
use dawn_mesh_server.Client.Voice.{
  ActiveRoom, Socket, cancel_ptt_release, dispose_microphone, end_room,
}
use dawn_mesh_server.Client.Voice.Actions.{set_state}

-- The fields of `ActiveRoom` that end with a room: those of the voice, and the rest. `messages` are
-- the texts, `has_worker` is until `terminate`, and `has_audio` are the elements of `#remote-audio`.
pub record Room : Type 0 where
  pub voice : ActiveRoom
  pub messages : List Text
  pub invite_visible : Bool
  pub invite_timer : Bool
  pub events_reconnect_timer : Bool
  pub media_reconnect_timer : Bool
  pub full_reconnect_timer : Bool
  pub room_ended_timer : Bool
  pub has_worker : Bool
  pub has_audio : Bool

-- `left` is the room that was `active` last, and `loads` counts the calls of `loadServer`.
pub record Client : Type 0 where
  pub active : Option Room
  pub left : Option Room
  pub wake_lock : Bool
  pub toast : Option String
  pub loads : ℕ

-- `releaseWakeLock`, whether or not `release` rejects.
unfoldable pub release_wake_lock : Client → Client
release_wake_lock client = record client { wake_lock = false }

-- `acquireWakeLock`, which has no effect while the page is hidden or if the request is refused.
unfoldable pub acquire_wake_lock : Bool → Bool → Client → Client
acquire_wake_lock is_visible is_granted client =
    if is_visible && is_granted then record client { wake_lock = true } else client

abbrev pub close_socket : Option Socket → Option Socket
close_socket none = none
close_socket (some socket) = some (record socket { is_open = false })

-- `cleanupRoom` as to the microphone, the socket and the media room.
unfoldable pub leave_voice : ActiveRoom → ActiveRoom
unfolding dispose_microphone cancel_ptt_release
leave_voice active =
    let leaving = record active { leaving = true; media_permission_timer = false } in
    let disposed = cancel_ptt_release (dispose_microphone leaving) in
    record disposed { socket = close_socket disposed.socket; room = set_state false disposed.room }

-- No timer, worker or audio element is left.
abbrev pub clear_timers : Room → Room
clear_timers room = record room {
  invite_timer = false;
  events_reconnect_timer = false;
  media_reconnect_timer = false;
  full_reconnect_timer = false;
}

abbrev pub drop_media : Room → Room
drop_media room = record room { has_worker = false; has_audio = false }

unfoldable pub cleanup : Room → Room
unfolding leave_voice
cleanup room =
    drop_media
      (record (clear_timers room) { voice = leave_voice room.voice; room_ended_timer = false })

abbrev pub hide_toast_if : Bool → Option String → Option String
hide_toast_if ended toast = if ended then none else toast

abbrev pub leave_active : Option Room → Client → Client
leave_active none client = client
leave_active (some room) client = record client {
  active = none;
  left = some (cleanup room);
  wake_lock = false;
  toast = hide_toast_if room.voice.room_ended client.toast;
}

unfoldable pub cleanup_room : Client → Client
unfolding cleanup
cleanup_room client = leave_active client.active client

abbrev pub load_server : Client → Client
load_server client = record client { loads = client.loads + 1 }

abbrev pub is_empty : Text → Bool
is_empty [] = true
is_empty (c ∷ text) = false

-- `messages.some(message => message.text.trim().length > 0)`.
unfoldable pub any_written : List Text → Bool
any_written [] = false
any_written (text ∷ messages) = not (is_empty (trim_end (trim_start text))) || any_written messages

-- The room that stays on the screen for its messages.
unfoldable pub end_kept : Room → Room
unfolding end_room
end_kept room = drop_media (record (clear_timers room) { voice = end_room room.voice })

-- `handleRoomEnded` of the active room.
abbrev pub end_active : Option Room → Client → Client
end_active none client = client
end_active (some room) client =
    if room.voice.room_ended
    then client
    else if any_written room.messages
    then record client {
      active = some (end_kept room);
      wake_lock = false;
      toast = some "房间已被群主解散，消息保留到退出房间";
    }
    else load_server (leave_active (some room) client)

unfoldable pub handle_room_ended : Client → Client
unfolding cleanup end_kept
handle_room_ended client = end_active client.active client

-- The answer to the request: `none` if it succeeds, or the text of its failure.
abbrev pub after_request : Bool → Option String → Client → Client
after_request true (some failure) client = record client { toast = some failure }
after_request _ _ client = load_server (leave_active client.active client)

abbrev pub leave_asked : Option Room → Bool → Bool → Option String → Client → Client
leave_asked none ends_room is_confirmed answer client = client
leave_asked (some room) ends_room is_confirmed answer client =
    if (room.voice.room_ended && ends_room) || not is_confirmed
    then client
    else after_request ends_room answer client

-- `leaveRoom(endRoom)`, with the answer to the question and to the request.
unfoldable pub leave_room : Bool → Bool → Option String → Client → Client
unfolding cleanup
leave_room ends_room is_confirmed answer client =
    leave_asked client.active ends_room is_confirmed answer client

abbrev pub if_host : (Room → Room) → Option Room → Option Room
if_host change none = none
if_host change (some room) = some (if room.voice.is_host then change room else room)

abbrev pub if_active : (Room → Room) → Option Room → Option Room
if_active change none = none
if_active change (some room) = some (change room)

unfoldable pub reveal_invite : Client → Client
reveal_invite client = record client {
  active =
      if_host (λ room. record room { invite_visible = true; invite_timer = true }) client.active;
}

-- `hideInvite`, also as the callback of the timer.
unfoldable pub hide_invite : Client → Client
hide_invite client = record client {
  active =
      if_active (λ room. record room { invite_visible = false; invite_timer = false })
        client.active;
}

abbrev pub hidden_code : Text
hidden_code = 0x2022 ∷ 0x2022 ∷ 0x2022 ∷ 0x2022 ∷ []

-- What `renderInvite` shows of the code, if the card is shown.
unfoldable pub shown_code : Text → Option Room → Option Text
shown_code invite_code none = none
shown_code invite_code (some room) =
    if room.voice.is_host
    then some (if room.invite_visible then invite_code else hidden_code)
    else none
