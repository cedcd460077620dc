-- ===== src/Client/Events.antt =====
-- `handleManagementEvent` of frontend/src/client/app.ts over a whole room, and the listeners that
-- show or hide the invitation code. The summary of the room, which is only rendered, is left out;
-- `memberLeft`, which reaches nothing else of the room, is in Client/Presence.
pub mod Card
pub mod Invitation
mod Tests
use dawn_mesh_server.Prelude.{
  ℕ, ◌+◌, Bool, true, false, ◌&&◌, ◌||◌, not, List, [], ◌∷◌, Option, none, some, String,
  if◌then◌else◌,
}
use dawn_mesh_server.Prelude.Maps.{◌===◌, string_eq}
use dawn_mesh_server.Client.Voice.{
  ActiveRoom, Member, or_else, apply_roster_speaking_policy, apply_wanted, on_voice_policy,
}
use dawn_mesh_server.Client.Voice.Actions.{set_ptt}
use dawn_mesh_server.Client.Leaving.{
  Room, Client, if_active, handle_room_ended, leave_room, reveal_invite, hide_invite,
}

-- `ManagementEvent`, by its `type`, with the fields that its branch reads.
pub data ManagementEvent : Type 0 where
  snapshot : String → Option Bool → Option (List Member) → ManagementEvent
  room_updated member_left : ManagementEvent
  voice_policy : String → Bool → Option (List Member) → ManagementEvent
  role_changed : String → Option (List Member) → ManagementEvent
  session_replaced room_ended : ManagementEvent
  error : String → ManagementEvent
  other : ManagementEvent

abbrev pub with_voice : (ActiveRoom → ActiveRoom) → Client → Client
with_voice change client = record client {
  active = if_active (λ room. record room { voice = change room.voice }) client.active;
}

-- The host, the permission and the roster that an event brings.
unfoldable pub take_roster : String → Option Bool → Option (List Member) → ActiveRoom → ActiveRoom
take_roster host_member_id can_speak members active = apply_roster_speaking_policy (record active {
  is_host = host_member_id === active.member_id;
  policy_can_speak = or_else can_speak active.policy_can_speak;
  members = or_else members active.members;
})

abbrev pub is_host : Option Room → Bool
is_host none = false
is_host (some room) = room.voice.is_host

-- `!active.isHost && event.hostMemberId === active.memberId`.
abbrev pub became_host : String → Option Room → Bool
became_host host_member_id none = false
became_host host_member_id (some room) =
    not room.voice.is_host && (host_member_id === room.voice.member_id)

-- For a `snapshot`.
unfoldable pub handle_snapshot : String → Option Bool → Option (List Member) → Client → Client
handle_snapshot host_member_id can_speak members client =
    let told = with_voice (take_roster host_member_id can_speak members) client in
    let revealed = if became_host host_member_id client.active then reveal_invite told else told in
    with_voice apply_wanted (if is_host revealed.active then revealed else hide_invite revealed)

-- For a `role_changed`.
unfoldable pub handle_role_changed : String → Option (List Member) → Client → Client
handle_role_changed host_member_id members client =
    let told = with_voice (take_roster host_member_id none members) client in
    if became_host host_member_id client.active then reveal_invite told else hide_invite told

abbrev pub toast_if_active : String → Option Room → Client → Client
toast_if_active text none client = client
toast_if_active text (some room) client = record client { toast = some text }

-- `handleManagementEvent`.
unfoldable pub handle_management_event : ManagementEvent → Client → Client
handle_management_event (snapshot host_member_id can_speak members) client =
    handle_snapshot host_member_id can_speak members client
handle_management_event room_updated client = client
handle_management_event member_left client = client
handle_management_event (voice_policy member_id can_speak members) client =
    with_voice (on_voice_policy member_id can_speak members) client
handle_management_event (role_changed host_member_id members) client =
    handle_role_changed host_member_id members client
handle_management_event session_replaced client =
    toast_if_active "此设备已在另一个会话重新加入，当前通话已结束" client.active (handle_room_ended client)
handle_management_event room_ended client = handle_room_ended client
handle_management_event (error text) client =
    toast_if_active (if text === "" then "管理操作失败" else text) client.active client
handle_management_event other client = client

abbrev pub is_invite_visible : Option Room → Bool
is_invite_visible none = false
is_invite_visible (some room) = room.invite_visible

-- The listener of `#toggle-invite`.
unfoldable pub toggle_invite : Client → Client
toggle_invite client =
    if is_invite_visible client.active then hide_invite client else reveal_invite client

-- The listener of `visibilitychange` when the page is hidden.
unfoldable pub page_hidden : Client → Client
page_hidden client = hide_invite (with_voice (set_ptt false true) client)

-- What reaches the invitation card: an event, the button, the timer, the page and the exit.
pub data Action : Type 0 where
  heard : ManagementEvent → Action
  toggled timer_fires hidden : Action
  leaves : Bool → Bool → Option String → Action

unfoldable pub act : Action → Client → Client
act (heard event) client = handle_management_event event client
act toggled client = toggle_invite client
act timer_fires client = hide_invite client
act hidden client = page_hidden client
act (leaves ends_room is_confirmed answer) client = leave_room ends_room is_confirmed answer client

unfoldable pub run : List Action → Client → Client
run [] client = client
run (action ∷ actions) client = run actions (act action client)

-- `enterRoom` as to the card: the host is shown the code at once.
unfoldable pub enter_card : Client → Client
enter_card client = if is_host client.active then reveal_invite client else client
