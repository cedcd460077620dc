-- ===== src/Admin/Listening/Starting.antt =====
-- `startListening` of frontend/src/admin/app.ts from one await to the next, its heartbeat, and all steps of the page.
use dawn_mesh_server.Prelude.{
  ℕ, ◌+◌, ◌-◌, Bool, true, false, ◌||◌, not, List, [], ◌∷◌, some, String, if◌then◌else◌, ◌==◌,
}
use dawn_mesh_server.Admin.Listening.{
  Listener, Start, awaits_old_stop, awaits_failed_stop, Page, is_id, is_none, is_started, change,
  stop_listening, on_stop_disconnected, on_stop_deleted, on_stop_overview, has_returned,
  not_stopped, no_start, awaits_new_overview, awaits_media, awaits_grant, awaits_key,
  awaits_connect, awaits_leave,
}

unfoldable pub start_listening : String → Bool → Page → Page
start_listening room_id is_supported page =
    if is_started page.start || not is_supported
    then page
    else record page { start = awaits_media room_id }

-- `import('livekit-client')` is there: an old listener is stopped first.
unfoldable pub on_media_loaded : String → Page → Page
unfolding stop_listening
on_media_loaded room_id page =
    if is_none page.active_listener
    then record page { start = awaits_grant room_id }
    else record (stop_listening true page) { start = awaits_old_stop room_id page.active_listener }

unfoldable pub on_granted : String → Page → Page
on_granted room_id page = record page {
  active_listener = some page.next_id;
  start = awaits_key page.next_id;
  is_shown = true;
  next_id = page.next_id + 1;
  listeners =
      record {
        id = page.next_id;
        room_id = room_id;
        has_worker = true;
        is_connected = false;
        is_granted = true;
        stop = not_stopped;
      }
      ∷ page.listeners;
}

abbrev pub terminate : Listener → Listener
terminate listener = record listener { has_worker = false }

abbrev pub connect : Listener → Listener
connect listener = record listener { is_connected = true }

abbrev pub leave : Listener → Listener
leave listener = record listener { is_connected = false; has_worker = false }

unfoldable pub on_key_set : ℕ → Page → Page
on_key_set id page =
    if is_id id page.active_listener
    then record page { start = awaits_connect id }
    else record (change id terminate page) { start = no_start }

unfoldable pub on_connected : ℕ → Page → Page
on_connected id page =
    if is_id id page.active_listener
    then record (change id connect page) { start = awaits_new_overview; listener_heartbeat = true }
    else record (change id connect page) { start = awaits_leave id }

unfoldable pub on_left : ℕ → Page → Page
on_left id page = record (change id leave page) { start = no_start }

-- The `catch` within `startListening`, up to its `await`.
unfoldable pub on_start_failed : Page → Page
unfolding stop_listening
on_start_failed page = record (stop_listening true page) {
  start = awaits_failed_stop page.active_listener;
}

-- `disconnect` of a room that is no longer the active one.
unfoldable pub on_leave_failed : ℕ → Page → Page
unfolding on_start_failed
on_leave_failed id page =
    on_start_failed (change id (λ listener. record listener { is_connected = false }) page)

-- An answer to the call of `startListening`, by what it awaits: whether it succeeded.
unfoldable pub on_answer : Start → Bool → Page → Page
on_answer no_start answered page = page
on_answer (awaits_media room_id) true page = on_media_loaded room_id page
on_answer (awaits_media room_id) false page = record page { start = no_start }
on_answer (awaits_old_stop room_id old) answered page =
    if has_returned old page then record page { start = awaits_grant room_id } else page
on_answer (awaits_grant room_id) true page = on_granted room_id page
on_answer (awaits_grant room_id) false page = record page { start = no_start }
on_answer (awaits_key id) true page = on_key_set id page
on_answer (awaits_key id) false page = on_start_failed page
on_answer (awaits_connect id) true page = on_connected id page
on_answer (awaits_connect id) false page = on_start_failed page
on_answer (awaits_leave id) true page = on_left id page
on_answer (awaits_leave id) false page = on_leave_failed id page
on_answer awaits_new_overview true page = record page { start = no_start }
on_answer awaits_new_overview false page = on_start_failed page
on_answer (awaits_failed_stop failed) answered page =
    if has_returned failed page then record page { start = no_start } else page

-- `RoomEvent.Disconnected` of a listener's room.
unfoldable pub on_room_disconnected : ℕ → Page → Page
on_room_disconnected id page =
    if is_id id page.active_listener then stop_listening true page else page

unfoldable pub on_heartbeat : Page → Page
on_heartbeat page =
    if not page.listener_heartbeat || is_none page.active_listener
    then page
    else record page { beats = page.beats + 1 }

unfoldable pub on_heartbeat_answer : Bool → Page → Page
on_heartbeat_answer true page = record page { beats = page.beats - 1 }
on_heartbeat_answer false page =
    if page.beats == 0 then page else stop_listening false (record page { beats = page.beats - 1 })

pub data Action : Type 0 where
  clicks_listen : (room_id : String) (is_supported : Bool) → Action
  clicks_stop heartbeat : Action
  answers heartbeat_answers : Bool → Action
  room_disconnects stop_disconnects stop_loads_overview : (id : ℕ) → Action
  stop_deletes : (id : ℕ) (is_gone : Bool) → Action

unfoldable pub act : Action → Page → Page
act (clicks_listen room_id is_supported) page = start_listening room_id is_supported page
act clicks_stop page = stop_listening true page
act heartbeat page = on_heartbeat page
act (answers answered) page = on_answer page.start answered page
act (heartbeat_answers answered) page = on_heartbeat_answer answered page
act (room_disconnects id) page = on_room_disconnected id page
act (stop_disconnects id) page = on_stop_disconnected id page
act (stop_loads_overview id) page = on_stop_overview id page
act (stop_deletes id is_gone) page = on_stop_deleted id is_gone page

unfoldable pub run : List Action → Page → Page
run [] page = page
run (action ∷ actions) page = run actions (act action page)
