-- ===== src/Client/Presence/Tests.antt =====
-- A member that drops out of a room, as frontend/src/client/presence.ts sees it, and the theorems at
-- inputs.
use dawn_mesh_server.Prelude.{ℕ, ◌≡◌, refl, true, false, List, [], ◌∷◌, ◌++◌, some}
use dawn_mesh_server.Prelude.Maps.{string_eq, number_eq, get}
use dawn_mesh_server.Client.Presence.{
  Member, ActiveRoom, Page, Timer, Action, Action.observe, Action.leave, Action.fire, new_presence,
  run, act, observe_presence, observe_owned, reset_presence, watch_members, forget_gone,
  put_members, has_dropped, timer_fires, member_left, add_seen, speak, may_speak,
}
use dawn_mesh_server.Client.Presence.Pending.{run_pending}
use dawn_mesh_server.Client.Presence.Speech.{spoken_times, AreSpaced, spoken_times-AreSpaced}

abbrev room : ActiveRoom
room = record {
  member_id = "me";
  announcements_enabled = true;
  leaving = false;
  room_ended = false;
}

abbrev at : ℕ → Page
at now = record { rooms = λ active. room; now = now; has_speech = true; has_voice = true }

abbrev you : Member
you = record { id = "you"; nickname = 89 ∷ []; connected = true }

abbrev dropped : List (Page × Action)
dropped =
    (at 9000, observe 1 (you ∷ []))
    ∷ (at 9500, observe 1 (record you { connected = false } ∷ []))
    ∷ []

abbrev you_timer : Timer
you_timer = record { active = 1; nickname = 89 ∷ [] }

timer_runs : get "you" (run dropped new_presence).pending ≡ some you_timer
unfolding run act observe_presence observe_owned reset_presence watch_members forget_gone
    put_members has_dropped
timer_runs = refl

run_pending_example : get "you" (run dropped new_presence).previous ≡ some false
run_pending_example = run_pending dropped "you" you_timer timer_runs

-- The timer speaks at 11500; the member's departure, so soon after, is not spoken.
abbrev announced : List (Page × Action)
announced = dropped ++ (at 11500, fire "you") ∷ (at 11700, leave 1 "you" (89 ∷ []) "e1") ∷ []

times_run : spoken_times announced new_presence ≡ 11500 ∷ []
unfolding spoken_times run act observe_presence observe_owned reset_presence watch_members
    forget_gone put_members has_dropped timer_fires speak may_speak member_left add_seen
times_run = refl

spoken_times-AreSpaced_example : AreSpaced 0 (spoken_times announced new_presence)
spoken_times-AreSpaced_example = spoken_times-AreSpaced announced new_presence
