-- ===== src/Client/Leaving/Tests.antt =====
-- A room with a message, its end, and the theorems at inputs.
use dawn_mesh_server.Prelude.{◌≡◌, refl, ◌⊎◌, true, false, [], ◌∷◌, none, some}
use dawn_mesh_server.Client.Voice.{enter_room}
use dawn_mesh_server.Client.Leaving.{
  Room, Client, leave_room, handle_room_ended, reveal_invite, hide_invite, shown_code, hidden_code,
}
use dawn_mesh_server.Client.Leaving.Quiet.{
  IsLeft, IsKept, IsEnded, keeps_room, leave_room_lem, room_ended_lem,
}

abbrev room : Room
room = record {
  voice = enter_room "me" true;
  messages = (104 ∷ 105 ∷ []) ∷ [];
  invite_visible = false;
  invite_timer = false;
  events_reconnect_timer = true;
  media_reconnect_timer = false;
  full_reconnect_timer = true;
  room_ended_timer = false;
  has_worker = true;
  has_audio = true;
}

abbrev client : Client
client = record { active = some room; left = none; wake_lock = true; toast = none; loads = 1 }

leave_room_lem_example :
    let after = leave_room true true (some "403") client in
    ((keeps_room true true (some "403") room ≡ true) × IsKept client after)
    ⊎ ((keeps_room true true (some "403") room ≡ false) × IsLeft client after)
leave_room_lem_example = leave_room_lem true true (some "403") room client refl

room_ended_lem_example :
    IsEnded room client (handle_room_ended client)
    × (handle_room_ended (handle_room_ended client) ≡ handle_room_ended client)
room_ended_lem_example = room_ended_lem room client refl refl

-- The code is shown to the host until the timer hides it.
code_shown :
    (shown_code (49 ∷ []) (reveal_invite client).active ≡ some (49 ∷ []))
    × (shown_code (49 ∷ []) (hide_invite (reveal_invite client)).active ≡ some hidden_code)
unfolding shown_code reveal_invite hide_invite
code_shown = (refl, refl)
