-- ===== src/Admin/Duration.antt =====
-- `formatDuration` of frontend/src/admin/app.ts.
mod Tests
use dawn_mesh_server.Prelude.{
  ℕ, ◌+◌, ◌*◌, ◌/◌, ◌%◌, ◌≤◌, ◌<◌, ◌≡◌, refl, arith, Bool, true, false, List, [], ◌∷◌, ◌++◌,
  if◌then◌else◌, ◌==◌,
}
use dawn_mesh_server.Prelude.Int.{ℤ, pos, negsuc}
use dawn_mesh_server.Crypto.Base64.{Text}
use dawn_mesh_server.Client.Invite.{digits_before}

-- Which of the templates is filled, with its numbers.
pub data Duration : Type 0 where
  days_and_hours hours_and_minutes : ℕ → ℕ → Duration
  only_minutes : ℕ → Duration

-- `Math.max(0, Math.floor(milliseconds / 1000))` of a whole number.
unfoldable pub seconds_of : ℤ → ℕ
seconds_of (pos milliseconds) = milliseconds / 1000
seconds_of (negsuc n) = 0

unfoldable pub duration_of : ℕ → Duration
duration_of seconds =
    if not_zero (seconds / 86400)
    then days_and_hours (seconds / 86400) (seconds % 86400 / 3600)
    else if not_zero (seconds % 86400 / 3600)
    then hours_and_minutes (seconds % 86400 / 3600) (seconds % 3600 / 60)
    else only_minutes (seconds % 3600 / 60)
  where
    not_zero : ℕ → Bool
    not_zero n = if n == 0 then false else true

-- " 天 ", " 小时", " 小时 " and " 分钟".
abbrev pub word_days : Text
word_days = 32 ∷ 0x5929 ∷ 32 ∷ []

abbrev pub word_hours : Text
word_hours = 32 ∷ 0x5c0f ∷ 0x65f6 ∷ []

abbrev pub word_minutes : Text
word_minutes = 32 ∷ 0x5206 ∷ 0x949f ∷ []

-- `String(n)`; a number has fewer digits than it counts, and one at least.
abbrev pub decimal : ℕ → Text
decimal n = digits_before (n + 1) n []

unfoldable pub template : Duration → Text
template (days_and_hours days hours) = decimal days ++ word_days ++ decimal hours ++ word_hours
template (hours_and_minutes hours minutes) =
    decimal hours ++ word_hours ++ (32 ∷ []) ++ decimal minutes ++ word_minutes
template (only_minutes minutes) = decimal minutes ++ word_minutes

unfoldable pub format_duration : ℤ → Text
format_duration milliseconds = template (duration_of (seconds_of milliseconds))

-- The seconds that a duration says, its smallest unit, and whether its smaller number is in range.
pub said_seconds : Duration → ℕ
said_seconds (days_and_hours days hours) = days * 86400 + hours * 3600
said_seconds (hours_and_minutes hours minutes) = hours * 3600 + minutes * 60
said_seconds (only_minutes minutes) = minutes * 60

pub unit_seconds : Duration → ℕ
unit_seconds (days_and_hours days hours) = 3600
unit_seconds _ = 60

pub IsNormal : Duration → Type 0
IsNormal (days_and_hours days hours) = (1 ≤ days) × (hours < 24)
IsNormal (hours_and_minutes hours minutes) = (1 ≤ hours) × (hours < 24) × (minutes < 60)
IsNormal (only_minutes minutes) = minutes < 60

rounded :
    (seconds : ℕ)
    → (said_seconds (duration_of seconds) ≤ seconds)
      × (seconds < said_seconds (duration_of seconds) + unit_seconds (duration_of seconds))
      × IsNormal (duration_of seconds)
unfolding duration_of said_seconds unit_seconds IsNormal
rounded seconds = ground arith

-- What is shown of a time in milliseconds is the time rounded down to the smallest unit shown: hours
-- from a day on, minutes below; hours are below 24, minutes below 60, and the greater of two units
-- is not 0.
pub duration_of_lem :
    (milliseconds : ℕ)
    → let shown = duration_of (seconds_of (pos milliseconds)) in
      (said_seconds shown * 1000 ≤ milliseconds)
      × (milliseconds < (said_seconds shown + unit_seconds shown) * 1000)
      × IsNormal shown
unfolding seconds_of
duration_of_lem milliseconds =
    let r = rounded (milliseconds / 1000) in (omega (arith, r.0), omega (arith, r.1), r.2)
