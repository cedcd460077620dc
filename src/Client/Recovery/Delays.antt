-- ===== src/Client/Recovery/Delays.antt =====
-- The delays of the media timer of frontend/src/client/app.ts.
use dawn_mesh_server.Prelude.{
  ℕ, zero, suc, ◌+◌, ◌*◌, ◌/◌, ◌≤◌, ◌≡◌, refl, arith, min, true, false, String,
}
use dawn_mesh_server.Prelude.Maps.{string_eq}
use dawn_mesh_server.Client.Recovery.{
  Label.retry, Recovery, set_room_status, recovery_window, delay_of, schedule_media_reconnect,
  MediaOutcome.media_refused, media_timer_fires,
}

-- Delays are whole seconds, from 2 to 30.
delay_of_lem :
    (attempts : ℕ)
    → ((delay_of attempts + 999) / 1000 * 1000 ≡ delay_of attempts)
      × (2000 ≤ delay_of attempts)
      × (delay_of attempts ≤ 30000)
unfolding delay_of
delay_of_lem zero = (refl, omega arith, omega arith)
delay_of_lem (suc zero) = (refl, omega arith, omega arith)
delay_of_lem (suc (suc zero)) = (refl, omega arith, omega arith)
delay_of_lem (suc (suc (suc zero))) = (refl, omega arith, omega arith)
delay_of_lem (suc (suc (suc (suc n)))) = rw (capped n) (refl, omega arith, omega arith)
  where
    capped : (n : ℕ) → min (suc (suc (suc (suc n)))) 4 ≡ 4
    capped n = omega arith

-- When a media attempt is refused before the window is over, the next one is scheduled after as many
-- seconds as the status says, at least 2 and at most 30.
pub media_refused_retries :
    (now : ℕ) (diagnosis : String) (r : Recovery)
    → r.leaving ≡ false
    → r.media_started ≤ now
    → now ≤ r.media_started + recovery_window
    → let after = media_timer_fires now (media_refused diagnosis) r in
      (seconds : ℕ) × (after.label ≡ retry diagnosis seconds)
      × (after.media_timer ≡ true)
      × (after.media_delay ≡ seconds * 1000)
      × (2 ≤ seconds)
      × (seconds ≤ 30)
unfolding media_timer_fires schedule_media_reconnect set_room_status
media_refused_retries now diagnosis r stays begun open_window =
    let d = delay_of_lem r.media_attempts in
    (
      (delay_of r.media_attempts + 999) / 1000,
      ground arith,
      ground arith,
      ground (arith, d),
      omega (arith, d.1),
      omega (arith, d.2),
    )
