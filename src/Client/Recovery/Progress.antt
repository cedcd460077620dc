-- ===== src/Client/Recovery/Progress.antt =====
-- A lost connection of frontend/src/client/app.ts is always being recovered, until its window ends.
use dawn_mesh_server.Prelude.{
  ℕ, ◌+◌, ◌/◌, ◌≤◌, ◌<◌, ◌≡◌, refl, arith, Bool, true, false, ◌&&◌, ◌||◌, not, List, [], ◌∷◌,
  String, ltb, ◌==◌, if◌then◌else◌,
}
use dawn_mesh_server.Prelude.Maps.{string_eq}
use dawn_mesh_server.Client.Recovery.{
  Label, Label.text, Label.retry, Recovery, new_recovery, set_room_status, update_connection_status,
  recovery_window, schedule_full_reconnect, delay_of, schedule_media_reconnect, media_connects,
  FullOutcome, FullOutcome.resume_fails, FullOutcome.resumed, FullOutcome.media_follows,
  FullOutcome.media_fails, resumes, full_timer_fires, MediaOutcome, MediaOutcome.media_connected,
  MediaOutcome.session_gone, MediaOutcome.media_refused, media_timer_fires, on_socket_close,
  events_timer_fires, on_media_lost, enter_events, enter_media, Action, Action.socket_closes,
  Action.media_lost, Action.events_fires, Action.full_fires, Action.media_fires, act,
}

-- The window that began at `started` is over.
abbrev pub is_over : ℕ → ℕ → Bool
is_over now started = not (started == 0) && ltb (started + recovery_window) now

-- The channel is open, or a timer will try again, or the window is over.
abbrev pub is_managed : ℕ → Recovery → Bool
is_managed now r = r.socket_open || r.events_timer || r.full_timer || is_over now r.full_started

abbrev pub has_media : ℕ → Recovery → Bool
has_media now r =
    r.room_connected
    || r.media_timer
    || r.full_timer
    || is_over now r.media_started
    || is_over now r.full_started

record IsRecovering (now : ℕ) (r : Recovery) : Type 0 where
  pub present : r.leaving ≡ false
  pub managed : is_managed now r ≡ true
  pub media : has_media now r ≡ true

full_managed :
    (now : ℕ) (label : Label) (r : Recovery)
    → 0 < now
    → r.leaving ≡ false
    → IsRecovering now (schedule_full_reconnect now label r)
unfolding schedule_full_reconnect set_room_status
full_managed now label r h stays = record {
  present = ground arith;
  managed = ground arith;
  media = ground arith;
}

media_managed :
    (now : ℕ) (label : Label) (r : Recovery)
    → 0 < now
    → r.leaving ≡ false
    → is_managed now r ≡ true
    → IsRecovering now (schedule_media_reconnect now label r)
unfolding schedule_media_reconnect set_room_status
media_managed now label r h stays m = record {
  present = ground arith;
  managed = ground arith;
  media = ground arith;
}

later-IsRecovering :
    (now later : ℕ) (r : Recovery) → now ≤ later → IsRecovering now r → IsRecovering later r
later-IsRecovering now later r h i = record {
  present = i.present;
  managed = ground (arith, i.managed);
  media = ground (arith, i.media);
}

status-IsRecovering :
    (now : ℕ) (r : Recovery) → IsRecovering now r → IsRecovering now (update_connection_status r)
unfolding update_connection_status set_room_status
status-IsRecovering now r i = record {
  present = ground (arith, i.present);
  managed = ground (arith, i.managed);
  media = ground (arith, i.media);
}

close-IsRecovering :
    (now : ℕ) (r : Recovery) → IsRecovering now r → IsRecovering now (on_socket_close r)
unfolding on_socket_close set_room_status
close-IsRecovering now r i = record {
  present = ground (arith, i.present);
  managed = ground (arith, i.present);
  media = ground (arith, i.media);
}

full-IsRecovering :
    (now : ℕ) (outcome : FullOutcome) (r : Recovery)
    → 0 < now
    → IsRecovering now r
    → IsRecovering now (full_timer_fires now outcome r)
unfolding full_timer_fires media_connects resumes
full-IsRecovering now resume_fails r h i =
    full_managed now (text "管理通道恢复失败，正在重试") (record r { full_timer = false }) h i.present
full-IsRecovering now resumed r h i =
    status-IsRecovering now
      (record (resumes r) { room_connected = true; media_attempts = 0; media_started = 0 })
      (record { present = i.present; managed = refl; media = refl })
full-IsRecovering now media_follows r h i =
    let ready = record (resumes r) { room_connected = true; last_media_error = "" } in
    let done =
      status-IsRecovering now ready
        (record { present = i.present; managed = refl; media = refl }) in
    let kept = status_keeps ready in
    record { present = done.present; managed = ground (arith, kept); media = ground (arith, kept) }
  where
    status_keeps :
        (r : Recovery)
        → ((update_connection_status r).socket_open ≡ r.socket_open)
          × ((update_connection_status r).room_connected ≡ r.room_connected)
    status_keeps r = unfold update_connection_status set_room_status in ground arith
full-IsRecovering now media_fails r h i =
    media_managed now (text "管理通道已恢复，媒体连接正在恢复") (resumes r) h i.present refl

media-IsRecovering :
    (now : ℕ) (outcome : MediaOutcome) (r : Recovery)
    → 0 < now
    → IsRecovering now r
    → IsRecovering now (media_timer_fires now outcome r)
unfolding media_timer_fires media_connects update_connection_status set_room_status
media-IsRecovering now media_connected r h i = record {
  present = ground (arith, i.present);
  managed = ground (arith, i.managed);
  media = ground arith;
}
media-IsRecovering now session_gone r h i =
    full_managed now (text "会话已失效，正在恢复房间连接") (record r { media_timer = false }) h i.present
media-IsRecovering now (media_refused diagnosis) r h i =
    media_managed now (retry diagnosis ((delay_of r.media_attempts + 999) / 1000))
      (record r { media_timer = false; last_media_error = diagnosis }) h i.present i.managed

events-IsRecovering :
    (now : ℕ) (opened : Bool) (r : Recovery)
    → 0 < now
    → IsRecovering now r
    → IsRecovering now (events_timer_fires now opened r)
unfolding events_timer_fires
events-IsRecovering now true r h i =
    status-IsRecovering now (record r { events_timer = false; socket_open = true })
      (record { present = i.present; managed = refl; media = i.media })
events-IsRecovering now false r h i =
    full_managed now (text "连接中断，正在自动恢复") (record r { events_timer = false }) h i.present

if-IsRecovering :
    (test : Bool) (now : ℕ) (a b : Recovery)
    → IsRecovering now a
    → IsRecovering now b
    → IsRecovering now (if test then a else b)
if-IsRecovering true now a b ha hb = ha
if-IsRecovering false now a b ha hb = hb

act-IsRecovering :
    (now : ℕ) (action : Action) (r : Recovery)
    → 0 < now
    → IsRecovering now r
    → IsRecovering now (act now action r)
unfolding act on_media_lost
act-IsRecovering now socket_closes r h i = close-IsRecovering now r i
act-IsRecovering now media_lost r h i =
    media_managed now _ (record r { room_connected = false }) h i.present i.managed
act-IsRecovering now (events_fires opened) r h i =
    if-IsRecovering r.events_timer now (events_timer_fires now opened r) r
      (events-IsRecovering now opened r h i) i
act-IsRecovering now (full_fires outcome) r h i =
    if-IsRecovering r.full_timer now (full_timer_fires now outcome r) r
      (full-IsRecovering now outcome r h i) i
act-IsRecovering now (media_fires outcome) r h i =
    if-IsRecovering r.media_timer now (media_timer_fires now outcome r) r
      (media-IsRecovering now outcome r h i) i

-- Actions at times that do not go back, the first not before `now`, and the last time.
abbrev pub AreLater : ℕ → List (ℕ × Action) → Type 0
AreLater now [] = Unit {0}
AreLater now ((time, action) ∷ actions) = (now ≤ time) × AreLater time actions

abbrev pub last_time : ℕ → List (ℕ × Action) → ℕ
last_time now [] = now
last_time now ((time, action) ∷ actions) = last_time time actions

pub run : List (ℕ × Action) → Recovery → Recovery
run [] r = r
run ((time, action) ∷ actions) r = run actions (act time action r)

run-IsRecovering :
    (now : ℕ) (actions : List (ℕ × Action)) (r : Recovery)
    → 0 < now
    → AreLater now actions
    → IsRecovering now r
    → IsRecovering (last_time now actions) (run actions r)
unfolding run
run-IsRecovering now [] r h later i = i
run-IsRecovering now ((time, action) ∷ actions) r h (le, later) i =
    run-IsRecovering time actions (act time action r) (omega arith) later
      (act-IsRecovering time action r (omega arith) (later-IsRecovering now time r le i))

enter-IsRecovering :
    (now : ℕ) (events media : Bool) (diagnosis : String)
    → 0 < now
    → IsRecovering now (enter_media now media diagnosis (enter_events now events new_recovery))
unfolding enter_events enter_media media_connects update_connection_status set_room_status
    schedule_full_reconnect schedule_media_reconnect
enter-IsRecovering now true true diagnosis h = record {
  present = refl;
  managed = refl;
  media = refl;
}
enter-IsRecovering now false true diagnosis h = record {
  present = ground arith;
  managed = ground arith;
  media = ground arith;
}
enter-IsRecovering now true false diagnosis h = record {
  present = ground arith;
  managed = ground arith;
  media = ground arith;
}
enter-IsRecovering now false false diagnosis h = record {
  present = ground arith;
  managed = ground arith;
  media = ground arith;
}

-- From the entry into a room on, however the first attempts and all later ones come out, while the
-- room is not left: the management channel is open, or a timer is set that will try again, or the
-- window of its recovery is over; and the same holds of the media connection. The clock does not go
-- back.
pub run_recovers :
    (now : ℕ) (events media : Bool) (diagnosis : String) (actions : List (ℕ × Action))
    → 0 < now
    → AreLater now actions
    → let r =
        run actions (enter_media now media diagnosis (enter_events now events new_recovery)) in
      (is_managed (last_time now actions) r ≡ true) × (has_media (last_time now actions) r ≡ true)
run_recovers now events media diagnosis actions h later =
    let i =
      run-IsRecovering now actions
        (enter_media now media diagnosis (enter_events now events new_recovery)) h later
        (enter-IsRecovering now events media diagnosis h) in
    (i.managed, i.media)
