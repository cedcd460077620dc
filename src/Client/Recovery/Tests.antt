-- ===== src/Client/Recovery/Tests.antt =====
-- A recovery of frontend/src/client/app.ts, and the theorems at inputs.
use dawn_mesh_server.Prelude.{ℕ, ◌≡◌, arith, true, false, List, [], ◌∷◌}
use dawn_mesh_server.Client.Recovery.{
  Recovery, new_recovery, Action, Action.socket_closes, Action.events_fires, Action.full_fires,
  Action.media_fires, FullOutcome.resume_fails, FullOutcome.media_follows,
  MediaOutcome.media_refused, enter_events, enter_media,
}
use dawn_mesh_server.Client.Recovery.Progress.{is_managed, has_media, last_time, run, run_recovers}

-- The channel opens and the media does not; then the channel closes and cannot be opened again, and
-- the session is resumed at the second attempt.
abbrev actions : List (ℕ × Action)
actions =
    (3000, media_fires (media_refused "ICE"))
    ∷ (5000, socket_closes)
    ∷ (7000, events_fires false)
    ∷ (9000, full_fires resume_fails)
    ∷ (11000, full_fires media_follows)
    ∷ []

abbrev entered : Recovery
entered = enter_media 1000 false "ICE" (enter_events 1000 true new_recovery)

run_recovers_example :
    (is_managed (last_time 1000 actions) (run actions entered) ≡ true)
    × (has_media (last_time 1000 actions) (run actions entered) ≡ true)
run_recovers_example = run_recovers 1000 true false "ICE" actions (omega arith) (omega arith)

abbrev tried : Recovery
tried = record new_recovery { media_timer = true; media_started = 1000; media_attempts = 2 }
