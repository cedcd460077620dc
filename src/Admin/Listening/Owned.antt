-- ===== src/Admin/Listening/Owned.antt =====
-- What runs while the page of frontend/src/admin/app.ts listens, and what it belongs to.
pub mod Answers
pub mod Runs
use dawn_mesh_server.Prelude.{
  ℕ, ◌+◌, ◌-◌, ◌≡◌, refl, arith, Bool, true, false, ◌&&◌, ◌||◌, not, List, [], ◌∷◌, Option, none,
  some, String, if◌then◌else◌, ◌==◌, map, ==_iff, &&-true, eq→==, Bool-cases, inl, inr,
}
use dawn_mesh_server.Admin.Listening.{
  Stop, awaits_disconnect, Listener, Start, no_start, awaits_new_overview, awaits_media,
  awaits_grant, awaits_old_stop, awaits_key, awaits_connect, awaits_leave, awaits_failed_stop, Page,
  new_page, is_id, is_none, is_started, change, change_if, begin_stop, stop_one, stop_listening,
  release, on_stop_disconnected, tell, on_stop_deleted, end_stop, on_stop_overview, has_returned,
}
use dawn_mesh_server.Admin.Listening.Starting.{
  start_listening, on_media_loaded, on_granted, terminate, connect, leave, on_key_set, on_connected,
  on_left, on_start_failed, on_leave_failed, on_answer, on_room_disconnected, on_heartbeat,
  on_heartbeat_answer, Action, clicks_listen, clicks_stop, heartbeat, answers, heartbeat_answers,
  room_disconnects, stop_disconnects, stop_loads_overview, stop_deletes, act, run,
}

abbrev pub is_disconnecting : Stop → Bool
is_disconnecting (awaits_disconnect notify_server) = true
is_disconnecting _ = false

-- The start awaits that this listener's room is left.
abbrev pub is_left_by : ℕ → Start → Bool
is_left_by id (awaits_leave other) = other == id
is_left_by id _ = false

-- The worker of a listener is the active one's, or one that is being stopped; so is its connection,
-- but for a room that connected too late and is being left.
abbrev pub is_owned : Option ℕ → Start → Listener → Bool
is_owned active start listener =
    let is_kept = is_id listener.id active || is_disconnecting listener.stop in
    (not listener.has_worker || is_kept)
    && (not listener.is_connected || is_kept || is_left_by listener.id start)

pub all_owned : Option ℕ → Start → List Listener → Bool
all_owned active start [] = true
all_owned active start (listener ∷ listeners) =
    is_owned active start listener && all_owned active start listeners

-- Before a grant there is no active listener.
abbrev pub is_free : Option ℕ → Start → Bool
is_free active (awaits_grant room_id) = is_none active
is_free active (awaits_old_stop room_id old) = is_none active
is_free active _ = true

pub IsOwned : Page → Type 0
IsOwned page =
    (all_owned page.active_listener page.start page.listeners ≡ true)
    × (is_free page.active_listener page.start ≡ true)

-- A change of each listener that keeps it owned keeps them all.
map_owned :
    (active next : Option ℕ) (start later : Start) (f : Listener → Listener)
    → ((listener : Listener)
        → is_owned active start listener ≡ true
        → is_owned next later (f listener) ≡ true)
    → (listeners : List Listener) → all_owned active start listeners ≡ true
    → all_owned next later (map f listeners) ≡ true
unfolding all_owned
map_owned active next start later f keeps [] h = refl
map_owned active next start later f keeps (listener ∷ listeners) h =
    let parts = &&-true (is_owned active start listener) (all_owned active start listeners) h in
    rw (keeps listener parts.0, map_owned active next start later f keeps listeners parts.1) refl

pub same_owned :
    (active next : Option ℕ) (start later : Start)
    → ((listener : Listener)
        → is_owned active start listener ≡ true
        → is_owned next later listener ≡ true)
    → (listeners : List Listener) → all_owned active start listeners ≡ true
    → all_owned next later listeners ≡ true
unfolding all_owned
same_owned active next start later keeps [] h = refl
same_owned active next start later keeps (listener ∷ listeners) h =
    let parts = &&-true (is_owned active start listener) (all_owned active start listeners) h in
    rw (keeps listener parts.0, same_owned active next start later keeps listeners parts.1) refl

abbrev pub is_leaving : Start → Bool
is_leaving (awaits_leave id) = true
is_leaving _ = false

-- The start goes on to another step.
later_owned :
    (active : Option ℕ) (start later : Start) (listener : Listener)
    → is_leaving start ≡ false
    → is_owned active start listener ≡ true
    → is_owned active later listener ≡ true
later_owned active (awaits_leave id) later listener not_leaving h = cc
later_owned active no_start later listener not_leaving h = ground arith
later_owned active awaits_new_overview later listener not_leaving h = ground arith
later_owned active (awaits_media room_id) later listener not_leaving h = ground arith
later_owned active (awaits_grant room_id) later listener not_leaving h = ground arith
later_owned active (awaits_old_stop room_id old) later listener not_leaving h = ground arith
later_owned active (awaits_key id) later listener not_leaving h = ground arith
later_owned active (awaits_connect id) later listener not_leaving h = ground arith
later_owned active (awaits_failed_stop failed) later listener not_leaving h = ground arith

-- `stopListening` takes the active listener.
begin_stop_owned :
    (id : ℕ) (notify_server : Bool) (start : Start) (listener : Listener)
    → is_owned (some id) start listener ≡ true
    → is_owned none start (change_if (listener.id == id) (begin_stop notify_server) listener) ≡ true
begin_stop_owned id notify_server start listener h = ground (arith, ==_iff listener.id id)

stop_owned :
    (active : Option ℕ) (notify_server : Bool) (start : Start) (listeners : List Listener)
    → all_owned active start listeners ≡ true
    → all_owned none start (stop_one active notify_server listeners) ≡ true
stop_owned none notify_server start listeners h = h
stop_owned (some id) notify_server start listeners h =
    map_owned (some id) none start start
      (λ listener. change_if (listener.id == id) (begin_stop notify_server) listener)
      (begin_stop_owned id notify_server start) listeners h

-- What a step does to one listener keeps it owned.
pub release_owned :
    (b : Bool) (active : Option ℕ) (start : Start) (listener : Listener)
    → is_owned active start listener ≡ true
    → is_owned active start (change_if b (λ l. release l.stop l) listener) ≡ true
release_owned b active start listener h = ground arith

pub tell_owned :
    (b is_gone : Bool) (active : Option ℕ) (start : Start) (listener : Listener)
    → is_owned active start listener ≡ true
    → is_owned active start (change_if b (λ l. tell is_gone l.stop l) listener) ≡ true
tell_owned b is_gone active start listener h = ground arith

pub end_stop_owned :
    (b : Bool) (active : Option ℕ) (start : Start) (listener : Listener)
    → is_owned active start listener ≡ true
    → is_owned active start (change_if b (λ l. end_stop l.stop l) listener) ≡ true
end_stop_owned b active start listener h = ground arith

pub granted_owned :
    (id : ℕ) (room_id : String) (listener : Listener)
    → is_owned none (awaits_grant room_id) listener ≡ true
    → is_owned (some id) (awaits_key id) listener ≡ true
granted_owned id room_id listener h = ground arith

pub terminate_owned :
    (id : ℕ) (active : Option ℕ) (listener : Listener)
    → is_owned active (awaits_key id) listener ≡ true
    → is_owned active no_start (change_if (listener.id == id) terminate listener) ≡ true
terminate_owned id active listener h = ground arith

pub connect_owned :
    (id : ℕ) (active : Option ℕ) (listener : Listener)
    → is_id id active ≡ true
    → is_owned active (awaits_connect id) listener ≡ true
    → is_owned active awaits_new_overview (change_if (listener.id == id) connect listener) ≡ true
connect_owned id none listener is_active h = cc
connect_owned id (some other) listener is_active h =
    ground (arith, ==_iff listener.id id, ==_iff other id, ==_iff other listener.id)

pub connect_late_owned :
    (id : ℕ) (active : Option ℕ) (listener : Listener)
    → is_owned active (awaits_connect id) listener ≡ true
    → is_owned active (awaits_leave id) (change_if (listener.id == id) connect listener) ≡ true
connect_late_owned id active listener h =
    ground (arith, ==_iff id listener.id, ==_iff listener.id id)

pub leave_owned :
    (id : ℕ) (active : Option ℕ) (listener : Listener)
    → is_owned active (awaits_leave id) listener ≡ true
    → is_owned active no_start (change_if (listener.id == id) leave listener) ≡ true
leave_owned id active listener h = ground (arith, ==_iff id listener.id, ==_iff listener.id id)

pub leave_failed_owned :
    (id : ℕ) (active : Option ℕ) (later : Start) (listener : Listener)
    → is_owned active (awaits_leave id) listener ≡ true
    → is_owned active later
        (change_if (listener.id == id) (λ l. record l { is_connected = false }) listener)
      ≡ true
leave_failed_owned id active later listener h =
    ground (arith, ==_iff id listener.id, ==_iff listener.id id)

-- The start of a page whose start is not leaving a room goes on.
pub set_start-IsOwned :
    (later : Start) (page : Page)
    → is_leaving page.start ≡ false
    → is_free page.active_listener later ≡ true
    → IsOwned page
    → IsOwned (record page { start = later })
unfolding IsOwned
set_start-IsOwned later page not_leaving free h = (
  same_owned page.active_listener page.active_listener page.start later
      (λ listener owned.
        later_owned page.active_listener page.start later listener not_leaving owned)
      page.listeners h.0,
  free,
)

is_free-none : (start : Start) → is_free none start ≡ true
is_free-none start = ground arith

-- `stopListening`, after which the start goes on to `later`.
pub stop_then-IsOwned :
    (notify_server : Bool) (later : Start) (page : Page)
    → is_leaving page.start ≡ false
    → IsOwned page
    → IsOwned (record (stop_listening notify_server page) { start = later })
unfolding IsOwned stop_listening
stop_then-IsOwned notify_server later page not_leaving h = (
  same_owned none none page.start later
      (λ listener owned. later_owned none page.start later listener not_leaving owned)
      (stop_one page.active_listener notify_server page.listeners)
      (stop_owned page.active_listener notify_server page.start page.listeners h.0),
  is_free-none later,
)

pub stop-IsOwned :
    (notify_server : Bool) (page : Page)
    → IsOwned page
    → IsOwned (stop_listening notify_server page)
unfolding IsOwned stop_listening
stop-IsOwned notify_server page h = (
  stop_owned page.active_listener notify_server page.start page.listeners h.0,
  is_free-none page.start,
)

-- A change of one listener, after which the start goes on to `later`.
pub change-IsOwned :
    (id : ℕ) (f : Listener → Listener) (later : Start) (page : Page)
    → ((listener : Listener)
        → is_owned page.active_listener page.start listener ≡ true
        → is_owned page.active_listener later (change_if (listener.id == id) f listener) ≡ true)
    → is_free page.active_listener later ≡ true
    → IsOwned page
    → IsOwned (record (change id f page) { start = later })
unfolding IsOwned
change-IsOwned id f later page keeps free h = (
  map_owned page.active_listener page.active_listener page.start later
      (λ listener. change_if (listener.id == id) f listener) keeps page.listeners h.0,
  free,
)
