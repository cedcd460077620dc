-- ===== src/Admin/Listening.antt =====
-- Listening to a room: `startListening` and `stopListening` of frontend/src/admin/app.ts, the
-- listeners of the media room and the heartbeat, as the steps between their awaits. The calls may
-- be interleaved in any order.
pub mod Starting
pub mod Owned
mod Tests
use dawn_mesh_server.Prelude.{
  ℕ, ◌+◌, ◌-◌, Bool, true, false, ◌&&◌, ◌||◌, not, List, [], ◌∷◌, Option, none, some, String,
  if◌then◌else◌, ◌==◌, map,
}

-- Where a call of `stopListening` stands that took this listener: it awaits the room's
-- `disconnect`, then the request that tells the server, then the overview.
pub data Stop : Type 0 where
  not_stopped awaits_delete awaits_overview stopped : Stop
  awaits_disconnect : (notify_server : Bool) → Stop

-- A grant of the server with what the page made for it. `has_worker` is until `terminate`,
-- `is_connected` is the media room's, and `is_granted` is what the page knows of the server.
pub record Listener : Type 0 where
  pub id : ℕ
  pub room_id : String
  pub has_worker : Bool
  pub is_connected : Bool
  pub is_granted : Bool
  pub stop : Stop

-- Where the call of `startListening` stands, if there is one: `startingListener` is that there is.
-- A call that awaits `stopListening` names the listener that is stopped, if any.
pub data Start : Type 0 where
  no_start awaits_new_overview : Start
  awaits_media awaits_grant : (room_id : String) → Start
  awaits_old_stop : (room_id : String) (old : Option ℕ) → Start
  awaits_key awaits_connect awaits_leave : (id : ℕ) → Start
  awaits_failed_stop : (failed : Option ℕ) → Start

-- `activeListener` is the id of one of `listeners`, `beats` counts the requests of heartbeats
-- without an answer, and `is_shown` is the panel.
pub record Page : Type 0 where
  pub active_listener : Option ℕ
  pub start : Start
  pub listener_heartbeat : Bool
  pub beats : ℕ
  pub is_shown : Bool
  pub next_id : ℕ
  pub listeners : List Listener

abbrev pub new_page : Page
new_page = record {
  active_listener = none;
  start = no_start;
  listener_heartbeat = false;
  beats = 0;
  is_shown = false;
  next_id = 0;
  listeners = [];
}

abbrev pub is_id : ℕ → Option ℕ → Bool
is_id id none = false
is_id id (some other) = other == id

abbrev pub is_none : Option ℕ → Bool
is_none none = true
is_none (some id) = false

abbrev pub is_started : Start → Bool
is_started no_start = false
is_started _ = true

-- The listener of that id is changed.
abbrev pub change_if : Bool → (Listener → Listener) → Listener → Listener
change_if true change listener = change listener
change_if false change listener = listener

abbrev pub change : ℕ → (Listener → Listener) → Page → Page
change id f page = record page {
  listeners = map (λ listener. change_if (listener.id == id) f listener) page.listeners;
}

abbrev pub begin_stop : Bool → Listener → Listener
begin_stop notify_server listener = record listener { stop = awaits_disconnect notify_server }

abbrev pub stop_one : Option ℕ → Bool → List Listener → List Listener
stop_one none notify_server listeners = listeners
stop_one (some id) notify_server listeners =
    map (λ listener. change_if (listener.id == id) (begin_stop notify_server) listener) listeners

-- `stopListening` up to its first `await`.
unfoldable pub stop_listening : Bool → Page → Page
stop_listening notify_server page = record page {
  active_listener = none;
  listener_heartbeat = false;
  listeners = stop_one page.active_listener notify_server page.listeners;
}

-- After `disconnect`, which may reject.
abbrev pub release : Stop → Listener → Listener
release (awaits_disconnect true) listener = record listener {
  is_connected = false;
  has_worker = false;
  stop = awaits_delete;
}
release (awaits_disconnect false) listener = record listener {
  is_connected = false;
  has_worker = false;
  stop = awaits_overview;
}
release _ listener = listener

unfoldable pub on_stop_disconnected : ℕ → Page → Page
on_stop_disconnected id page =
    record (change id (λ listener. release listener.stop listener) page) { is_shown = false }

-- The server no longer has the listener if it answers so, or that it does not know it.
abbrev pub tell : Bool → Stop → Listener → Listener
tell is_gone awaits_delete listener = record listener {
  is_granted = listener.is_granted && not is_gone;
  stop = awaits_overview;
}
tell is_gone _ listener = listener

unfoldable pub on_stop_deleted : ℕ → Bool → Page → Page
on_stop_deleted id is_gone page = change id (λ listener. tell is_gone listener.stop listener) page

abbrev pub end_stop : Stop → Listener → Listener
end_stop awaits_overview listener = record listener { stop = stopped }
end_stop _ listener = listener

unfoldable pub on_stop_overview : ℕ → Page → Page
on_stop_overview id page = change id (λ listener. end_stop listener.stop listener) page

abbrev pub is_stopped : Stop → Bool
is_stopped stopped = true
is_stopped _ = false

unfoldable pub all_stopped : ℕ → List Listener → Bool
all_stopped id [] = true
all_stopped id (listener ∷ listeners) =
    (not (listener.id == id) || is_stopped listener.stop) && all_stopped id listeners

-- Whether the call of `stopListening` that is awaited has returned.
abbrev pub has_returned : Option ℕ → Page → Bool
has_returned none page = true
has_returned (some id) page = all_stopped id page.listeners
