-- ===== src/Client/Leaving/Quiet.antt =====
-- What is left of a room of frontend/src/client/app.ts once it is left or has ended.
use dawn_mesh_server.Prelude.{
  ◌+◌, ◌≡◌, refl, arith, Bool, true, false, ◌&&◌, ◌||◌, not, Option, none, some, String,
  if◌then◌else◌, ◌⊎◌, inl, inr, subst, sym, Bool-cases,
}
use dawn_mesh_server.Client.Voice.{
  ActiveRoom, is_true, is_socket_open, cancel_ptt_release, stop_ptt, dispose_microphone, end_room,
}
use dawn_mesh_server.Shared.MicrophoneGate.{Gate}
use dawn_mesh_server.Client.Leaving.{
  Room, Client, leave_voice, cleanup, leave_active, any_written, end_kept, end_active,
  handle_room_ended, after_request, leave_asked, leave_room, load_server,
}

abbrev has_gate : Option Gate → Bool
has_gate none = false
has_gate (some gate) = true

-- No microphone, no connection and no timer of the voice.
pub is_silent : ActiveRoom → Bool
is_silent active =
    active.leaving
    && not (has_gate active.mic_gate)
    && not active.mic_live
    && not active.audio_ready
    && not active.ptt
    && not active.ptt_release_timer
    && not active.media_permission_timer
    && not (is_socket_open active.socket)
    && not (is_true active.room)

pub is_quiet : Room → Bool
is_quiet room =
    is_silent room.voice
    && not room.invite_timer
    && not room.events_reconnect_timer
    && not room.media_reconnect_timer
    && not room.full_reconnect_timer
    && not room.has_worker
    && not room.has_audio

cleanup_quiet : (room : Room) → is_quiet (cleanup room) ≡ true
unfolding is_quiet is_silent cleanup leave_voice dispose_microphone cancel_ptt_release
cleanup_quiet room = ground arith

end_kept_quiet : (room : Room) → is_quiet (end_kept room) ≡ true
unfolding is_quiet is_silent end_kept end_room dispose_microphone stop_ptt cancel_ptt_release
end_kept_quiet room = ground arith

abbrev pub is_quiet_if_any : Option Room → Bool
is_quiet_if_any none = true
is_quiet_if_any (some room) = is_quiet room

abbrev is_some : Option String → Bool
is_some none = false
is_some (some failure) = true

-- Left: no active room, the one that was active is quiet, the screen may turn off, and the list of
-- rooms is loaded again.
pub IsLeft : Client → Client → Type 0
IsLeft before after =
    (after.active ≡ none)
    × (is_quiet_if_any after.left ≡ true)
    × (after.wake_lock ≡ false)
    × (after.loads ≡ before.loads + 1)

-- Nothing is left, released or loaded.
pub IsKept : Client → Client → Type 0
IsKept before after =
    (after.active ≡ before.active)
    × (after.left ≡ before.left)
    × (after.wake_lock ≡ before.wake_lock)
    × (after.loads ≡ before.loads)

-- A room that is there is kept if leaving is not confirmed, if it has ended and is to be ended, and
-- if the server refuses to end it.
abbrev pub keeps_room : Bool → Bool → Option String → Room → Bool
keeps_room ends_room is_confirmed answer room =
    not is_confirmed || (ends_room && (room.voice.room_ended || is_some answer))

some_injective : {a b : Room} → some a ≡ some b → a ≡ b
some_injective h = cc

leave_active-IsLeft :
    (active : Option Room) (room : Room) (client : Client)
    → active ≡ some room
    → IsLeft client (load_server (leave_active active client))
unfolding IsLeft cleanup
leave_active-IsLeft none room client there = cc
leave_active-IsLeft (some other) room client there = (refl, cleanup_quiet other, refl, refl)

kept : (client : Client) → IsKept client client
unfolding IsKept
kept client = (refl, refl, refl, refl)

asked_lem :
    (ends_room ended is_confirmed : Bool) (answer : Option String) (room : Room) (client : Client)
    → client.active ≡ some room
    → let after =
        if (ended && ends_room) || not is_confirmed
        then client
        else after_request ends_room answer client in
      let keeps = not is_confirmed || (ends_room && (ended || is_some answer)) in
      ((keeps ≡ true) × IsKept client after) ⊎ ((keeps ≡ false) × IsLeft client after)
unfolding IsKept
asked_lem true true is_confirmed answer room client there = inl (ground arith, kept client)
asked_lem true false false answer room client there = inl (refl, kept client)
asked_lem false true false answer room client there = inl (refl, kept client)
asked_lem false false false answer room client there = inl (refl, kept client)
asked_lem true false true (some failure) room client there = inl (refl, (refl, refl, refl, refl))
asked_lem true false true none room client there =
    inr (refl, leave_active-IsLeft client.active room client there)
asked_lem false true true none room client there =
    inr (refl, leave_active-IsLeft client.active room client there)
asked_lem false true true (some failure) room client there =
    inr (refl, leave_active-IsLeft client.active room client there)
asked_lem false false true none room client there =
    inr (refl, leave_active-IsLeft client.active room client there)
asked_lem false false true (some failure) room client there =
    inr (refl, leave_active-IsLeft client.active room client there)

-- A room that is asked to be left is left, whatever the server answers to a member that leaves; it is
-- kept as it is exactly if leaving is not confirmed, if it has ended and is to be ended again, or if
-- the server refuses to end it.
pub leave_room_lem :
    (ends_room is_confirmed : Bool) (answer : Option String) (room : Room) (client : Client)
    → client.active ≡ some room
    → let after = leave_room ends_room is_confirmed answer client in
      ((keeps_room ends_room is_confirmed answer room ≡ true) × IsKept client after)
      ⊎ ((keeps_room ends_room is_confirmed answer room ≡ false) × IsLeft client after)
unfolding leave_room
leave_room_lem ends_room is_confirmed answer room client there = by_active client.active there
  where
    by_active :
        (active : Option Room)
        → active ≡ some room
        → let after = leave_asked active ends_room is_confirmed answer client in
          ((keeps_room ends_room is_confirmed answer room ≡ true) × IsKept client after)
          ⊎ ((keeps_room ends_room is_confirmed answer room ≡ false) × IsLeft client after)
    by_active none h = cc
    by_active (some other) h =
        let same : other ≡ room = some_injective h in
        subst
          (λ r.
            let after = leave_asked (some other) ends_room is_confirmed answer client in
            ((keeps_room ends_room is_confirmed answer r ≡ true) × IsKept client after)
            ⊎ ((keeps_room ends_room is_confirmed answer r ≡ false) × IsLeft client after))
          same (asked_lem ends_room other.voice.room_ended is_confirmed answer room client there)

-- How the client stands once the room has ended.
pub IsEnded : Room → Client → Client → Type 0
IsEnded room before after =
    ((any_written room.messages ≡ true)
      × (after.active ≡ some (end_kept room))
      × (is_quiet (end_kept room) ≡ true)
      × ((end_kept room).messages ≡ room.messages)
      × (after.wake_lock ≡ false))
    ⊎ ((any_written room.messages ≡ false) × IsLeft before after)

end_active-IsEnded :
    (room : Room) (client : Client)
    → room.voice.room_ended ≡ false
    → IsEnded room client (end_active (some room) client)
unfolding IsEnded end_kept IsLeft
end_active-IsEnded room client fresh = elim (Bool-cases (any_written room.messages)) [
  | inl written ↦ simp (fresh, written) (inl (refl, refl, end_kept_quiet room, refl, refl))
  | inr none_written ↦
      simp (fresh, none_written) (inr (refl, leave_active-IsLeft (some room) room client refl))
]

end_again :
    (room : Room) (client : Client)
    → room.voice.room_ended ≡ false
    → handle_room_ended (end_active (some room) client) ≡ end_active (some room) client
unfolding handle_room_ended end_kept end_room
end_again room client fresh = elim (Bool-cases (any_written room.messages)) [
  | inl written ↦ rw (fresh, written) refl
  | inr none_written ↦ rw (fresh, none_written) refl
]

-- When the server ends a room that has not ended yet, the microphone, the connections and the timers
-- of the room are gone and the screen may turn off: the room stays as long as it holds a text that
-- is not blank, with its messages, and is left if it does not. To be told again changes nothing.
pub room_ended_lem :
    (room : Room) (client : Client)
    → client.active ≡ some room
    → room.voice.room_ended ≡ false
    → IsEnded room client (handle_room_ended client)
      × (handle_room_ended (handle_room_ended client) ≡ handle_room_ended client)
unfolding handle_room_ended
room_ended_lem room client there fresh =
    subst
      (λ active.
        IsEnded room client (end_active active client)
        × (handle_room_ended (end_active active client) ≡ end_active active client))
      (sym there) (end_active-IsEnded room client fresh, end_again room client fresh)
