-- ===== src/Client/Recovery.antt =====
-- How frontend/src/client/app.ts recovers its connections: `updateConnectionStatus`,
-- `scheduleFullReconnect` and `scheduleMediaReconnect` with the callbacks of their timers, and the
-- listener of the management channel's end. The requests of a callback answer by an outcome.
pub mod Progress
pub mod Delays
mod Tests
use dawn_mesh_server.Prelude.{
  ℕ, ◌+◌, ◌-◌, ◌*◌, ◌/◌, min, Bool, true, false, ◌&&◌, ◌||◌, not, List, [], ◌∷◌, String, get_or,
  ltb, ◌==◌, if◌then◌else◌,
}
use dawn_mesh_server.Prelude.Maps.{◌===◌, string_eq}

-- What the status says: a text, or the diagnosis and the seconds until the next try.
pub data Label : Type 0 where
  text : String → Label
  retry : (diagnosis : String) (seconds : ℕ) → Label

pub data Mode : Type 0 where
  connected reconnecting failed : Mode

-- The fields of `ActiveRoom` that recovery uses, and the status that is shown. Times are in
-- milliseconds, and a start of 0 is none. `media_delay` is the delay of the media timer.
pub record Recovery : Type 0 where
  pub leaving : Bool
  pub socket_open : Bool
  pub room_connected : Bool
  pub events_timer : Bool
  pub full_timer : Bool
  pub full_started : ℕ
  pub media_timer : Bool
  pub media_delay : ℕ
  pub media_attempts : ℕ
  pub media_started : ℕ
  pub last_media_error : String
  pub mode : Mode
  pub label : Label

abbrev pub new_recovery : Recovery
new_recovery = record {
  leaving = false;
  socket_open = false;
  room_connected = false;
  events_timer = false;
  full_timer = false;
  full_started = 0;
  media_timer = false;
  media_delay = 0;
  media_attempts = 0;
  media_started = 0;
  last_media_error = "";
  mode = reconnecting;
  label = text "";
}

unfoldable pub set_room_status : Mode → Label → Recovery → Recovery
set_room_status mode label r = record r { mode = mode; label = label }

abbrev pub or_text : String → String → String
or_text message default = if message === "" then default else message

unfoldable pub update_connection_status : Recovery → Recovery
update_connection_status r =
    if r.leaving
    then r
    else if r.socket_open && r.room_connected
    then set_room_status connected (text "连接安全 · 端到端加密") r
    else if not r.socket_open
    then set_room_status reconnecting (text "管理通道中断，正在自动恢复") r
    else set_room_status reconnecting (text (or_text r.last_media_error "媒体连接中断，正在自动恢复")) r

abbrev pub or_now : ℕ → ℕ → ℕ
or_now started now = if started == 0 then now else started

-- `30 * 60 * 1000`.
abbrev pub recovery_window : ℕ
recovery_window = 1800000

unfoldable pub schedule_full_reconnect : ℕ → Label → Recovery → Recovery
schedule_full_reconnect now label r =
    if r.leaving || r.full_timer
    then r
    else let begun = record r {
      events_timer = false;
      media_timer = false;
      full_started = or_now r.full_started now;
    } in
      if ltb recovery_window (now - begun.full_started)
      then set_room_status failed (text "恢复窗口已结束，请重新加入") begun
      else record (set_room_status reconnecting label begun) { full_timer = true }

abbrev pub delays : List ℕ
delays = 2000 ∷ 4000 ∷ 8000 ∷ 15000 ∷ 30000 ∷ []

-- `delays[Math.min(attempts, delays.length - 1)]`.
unfoldable pub delay_of : ℕ → ℕ
delay_of attempts = get_or delays (min attempts 4) 0

unfoldable pub schedule_media_reconnect : ℕ → Label → Recovery → Recovery
schedule_media_reconnect now label r =
    let shown = set_room_status reconnecting label r in
    if r.leaving
    then r
    else if r.media_timer
    then shown
    else let begun = record shown { media_started = or_now r.media_started now } in
      if ltb recovery_window (now - begun.media_started)
      then set_room_status failed (text "媒体恢复窗口已结束，请重新加入") begun
      else record begun {
        media_delay = delay_of r.media_attempts;
        media_attempts = r.media_attempts + 1;
        media_timer = true;
      }

-- The end of `connectMedia`.
unfoldable pub media_connects : Recovery → Recovery
media_connects r =
    update_connection_status (record r { room_connected = true; last_media_error = "" })

-- What the requests of the full timer's callback come to.
pub data FullOutcome : Type 0 where
  resume_fails resumed media_follows media_fails : FullOutcome

-- After `resume` and `connectEvents`.
unfoldable pub resumes : Recovery → Recovery
resumes r = record r { full_timer = false; socket_open = true; full_started = 0 }

unfoldable pub full_timer_fires : ℕ → FullOutcome → Recovery → Recovery
full_timer_fires now resume_fails r =
    schedule_full_reconnect now (text "管理通道恢复失败，正在重试") (record r { full_timer = false })
full_timer_fires now resumed r =
    update_connection_status
      (record (resumes r) { room_connected = true; media_attempts = 0; media_started = 0 })
full_timer_fires now media_follows r = record (media_connects (resumes r)) {
  media_attempts = 0;
  media_started = 0;
}
full_timer_fires now media_fails r =
    schedule_media_reconnect now (text "管理通道已恢复，媒体连接正在恢复") (resumes r)

pub data MediaOutcome : Type 0 where
  media_connected session_gone : MediaOutcome
  media_refused : (diagnosis : String) → MediaOutcome

unfoldable pub media_timer_fires : ℕ → MediaOutcome → Recovery → Recovery
media_timer_fires now media_connected r =
    record (media_connects (record r { media_timer = false })) {
      media_attempts = 0;
      media_started = 0;
      last_media_error = "";
    }
media_timer_fires now session_gone r =
    schedule_full_reconnect now (text "会话已失效，正在恢复房间连接") (record r { media_timer = false })
media_timer_fires now (media_refused diagnosis) r =
    let seconds = (delay_of r.media_attempts + 999) / 1000 in
    schedule_media_reconnect now (retry diagnosis seconds)
      (record r { media_timer = false; last_media_error = diagnosis })

-- The `close` listener of the management channel.
unfoldable pub on_socket_close : Recovery → Recovery
on_socket_close r =
    if r.leaving
    then record r { socket_open = false }
    else record (set_room_status reconnecting (text "管理通道中断，正在恢复")
        (record r { socket_open = false })) { events_timer = true }

-- Its timer calls `connectEvents`, and on failure `scheduleFullReconnect`.
unfoldable pub events_timer_fires : ℕ → Bool → Recovery → Recovery
events_timer_fires now true r =
    update_connection_status (record r { events_timer = false; socket_open = true })
events_timer_fires now false r =
    schedule_full_reconnect now (text "连接中断，正在自动恢复") (record r { events_timer = false })

-- `RoomEvent.Disconnected`.
unfoldable pub on_media_lost : ℕ → Recovery → Recovery
on_media_lost now r =
    schedule_media_reconnect now (text (or_text r.last_media_error "媒体连接中断，正在自动恢复"))
      (record r { room_connected = false })

-- The two `try` blocks at the end of `enterRoom`.
unfoldable pub enter_events : ℕ → Bool → Recovery → Recovery
enter_events now true r = update_connection_status (record r { socket_open = true })
enter_events now false r = schedule_full_reconnect now (text "管理通道未连接，正在自动恢复") r

unfoldable pub enter_media : ℕ → Bool → String → Recovery → Recovery
enter_media now true diagnosis r = media_connects r
enter_media now false diagnosis r =
    schedule_media_reconnect now (text diagnosis) (record r { last_media_error = diagnosis })

-- A timer fires only while it is set.
pub data Action : Type 0 where
  socket_closes media_lost : Action
  events_fires : (opened : Bool) → Action
  full_fires : FullOutcome → Action
  media_fires : MediaOutcome → Action

unfoldable pub act : ℕ → Action → Recovery → Recovery
act now socket_closes r = on_socket_close r
act now media_lost r = on_media_lost now r
act now (events_fires opened) r = if r.events_timer then events_timer_fires now opened r else r
act now (full_fires outcome) r = if r.full_timer then full_timer_fires now outcome r else r
act now (media_fires outcome) r = if r.media_timer then media_timer_fires now outcome r else r
