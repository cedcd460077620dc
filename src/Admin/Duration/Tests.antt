-- ===== src/Admin/Duration/Tests.antt =====
-- Durations that the administration page shows.
use dawn_mesh_server.Prelude.{◌+◌, ◌*◌, ◌≤◌, ◌<◌, ◌≡◌, refl, [], ◌∷◌}
use dawn_mesh_server.Prelude.Int.{pos, negsuc}
use dawn_mesh_server.Client.Invite.{digits_before}
use dawn_mesh_server.Admin.Duration.{
  duration_of, seconds_of, template, format_duration, said_seconds, unit_seconds, IsNormal,
  duration_of_lem,
}

-- 26 hours and a half, and a time before the start.
day_runs : format_duration (pos 95400000) ≡ 49 ∷ 32 ∷ 0x5929 ∷ 32 ∷ 50 ∷ 32 ∷ 0x5c0f ∷ 0x65f6 ∷ []
unfolding format_duration template duration_of seconds_of digits_before
day_runs = refl

before_runs : format_duration (negsuc 4) ≡ 48 ∷ 32 ∷ 0x5206 ∷ 0x949f ∷ []
unfolding format_duration template duration_of seconds_of digits_before
before_runs = refl

duration_of_lem_example :
    let shown = duration_of (seconds_of (pos 95400000)) in
    (said_seconds shown * 1000 ≤ 95400000)
    × (95400000 < (said_seconds shown + unit_seconds shown) * 1000)
    × IsNormal shown
duration_of_lem_example = duration_of_lem 95400000
