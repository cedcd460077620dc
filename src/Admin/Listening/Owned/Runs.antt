-- ===== src/Admin/Listening/Owned/Runs.antt =====
-- Over any steps of the page of frontend/src/admin/app.ts, what runs keeps its owner.
use dawn_mesh_server.Prelude.{
  ℕ, ◌+◌, ◌-◌, ◌≡◌, refl, arith, Bool, true, false, ◌&&◌, ◌||◌, not, List, [], ◌∷◌, Option, none,
  String, if◌then◌else◌, ◌==◌,
}
use dawn_mesh_server.Admin.Listening.{
  Listener, Start, no_start, awaits_media, Page, new_page, is_id, is_none, is_started, change,
  change_if, stop_listening, release, on_stop_disconnected, tell, on_stop_deleted, end_stop,
  on_stop_overview,
}
use dawn_mesh_server.Admin.Listening.Starting.{
  start_listening, on_room_disconnected, on_heartbeat, on_heartbeat_answer, Action, clicks_listen,
  clicks_stop, heartbeat, answers, heartbeat_answers, room_disconnects, stop_disconnects,
  stop_loads_overview, stop_deletes, act, run,
}
use dawn_mesh_server.Admin.Listening.Owned.{
  is_disconnecting, is_owned, all_owned, IsOwned, release_owned, tell_owned, end_stop_owned,
  set_start-IsOwned, stop-IsOwned, change-IsOwned,
}
use dawn_mesh_server.Admin.Listening.Owned.Answers.{answer-IsOwned}

changed-IsOwned :
    (id : ℕ) (f : Listener → Listener) (page : Page)
    → ((listener : Listener)
        → is_owned page.active_listener page.start listener ≡ true
        → is_owned page.active_listener page.start (change_if (listener.id == id) f listener)
          ≡ true)
    → IsOwned page
    → IsOwned (change id f page)
unfolding IsOwned
changed-IsOwned id f page keeps h = change-IsOwned id f page.start page keeps h.1 h

clicks-IsOwned :
    (room_id : String) (is_supported : Bool) (page : Page)
    → IsOwned page
    → IsOwned (start_listening room_id is_supported page)
unfolding start_listening
clicks-IsOwned room_id is_supported page h = by_start page.start refl
  where
    if-IsOwned :
        (b : Bool)
        → IsOwned (record page { start = awaits_media room_id })
        → IsOwned (if b then page else record page { start = awaits_media room_id })
    if-IsOwned true next = h
    if-IsOwned false next = next

    by_start :
        (start : Start)
        → page.start ≡ start
        → IsOwned (
            if is_started start || not is_supported
            then page
            else record page { start = awaits_media room_id })
    by_start no_start same =
        if-IsOwned (not is_supported)
          (set_start-IsOwned (awaits_media room_id) page (rw same refl) refl h)
    by_start _ same = h

heartbeat-IsOwned : (page : Page) → IsOwned page → IsOwned (on_heartbeat page)
unfolding on_heartbeat IsOwned
heartbeat-IsOwned page h =
    elim (not page.listener_heartbeat || is_none page.active_listener)
      as (λ b. IsOwned (if b then page else record page { beats = page.beats + 1 })) [
        | true ↦ h
        | false ↦ h
      ]

beat_answer-IsOwned :
    (answered : Bool) (page : Page) → IsOwned page → IsOwned (on_heartbeat_answer answered page)
unfolding on_heartbeat_answer IsOwned
beat_answer-IsOwned true page h = h
beat_answer-IsOwned false page h =
    let fewer = record page { beats = page.beats - 1 } in
    elim (page.beats == 0) as (λ b. IsOwned (if b then page else stop_listening false fewer)) [
      | true ↦ h
      | false ↦ stop-IsOwned false fewer h
    ]

room-IsOwned : (id : ℕ) (page : Page) → IsOwned page → IsOwned (on_room_disconnected id page)
unfolding on_room_disconnected
room-IsOwned id page h =
    elim (is_id id page.active_listener)
      as (λ b. IsOwned (if b then stop_listening true page else page)) [
        | true ↦ stop-IsOwned true page h
        | false ↦ h
      ]

stop_disconnected-IsOwned :
    (id : ℕ) (page : Page) → IsOwned page → IsOwned (on_stop_disconnected id page)
unfolding on_stop_disconnected IsOwned
stop_disconnected-IsOwned id page h =
    changed-IsOwned id (λ l. release l.stop l) page
      (λ l. release_owned (l.id == id) page.active_listener page.start l) h

stop_overview-IsOwned : (id : ℕ) (page : Page) → IsOwned page → IsOwned (on_stop_overview id page)
unfolding on_stop_overview
stop_overview-IsOwned id page h =
    changed-IsOwned id (λ l. end_stop l.stop l) page
      (λ l. end_stop_owned (l.id == id) page.active_listener page.start l) h

stop_deleted-IsOwned :
    (id : ℕ) (is_gone : Bool) (page : Page)
    → IsOwned page
    → IsOwned (on_stop_deleted id is_gone page)
unfolding on_stop_deleted
stop_deleted-IsOwned id is_gone page h =
    changed-IsOwned id (λ l. tell is_gone l.stop l) page
      (λ l. tell_owned (l.id == id) is_gone page.active_listener page.start l) h

act-IsOwned : (action : Action) (page : Page) → IsOwned page → IsOwned (act action page)
unfolding act
act-IsOwned (clicks_listen room_id is_supported) page h = clicks-IsOwned room_id is_supported page h
act-IsOwned clicks_stop page h = stop-IsOwned true page h
act-IsOwned heartbeat page h = heartbeat-IsOwned page h
act-IsOwned (answers answered) page h = answer-IsOwned page.start answered page refl h
act-IsOwned (heartbeat_answers answered) page h = beat_answer-IsOwned answered page h
act-IsOwned (room_disconnects id) page h = room-IsOwned id page h
act-IsOwned (stop_disconnects id) page h = stop_disconnected-IsOwned id page h
act-IsOwned (stop_loads_overview id) page h = stop_overview-IsOwned id page h
act-IsOwned (stop_deletes id is_gone) page h = stop_deleted-IsOwned id is_gone page h

run_from-IsOwned : (actions : List Action) (page : Page) → IsOwned page → IsOwned (run actions page)
unfolding run
run_from-IsOwned [] page h = h
run_from-IsOwned (action ∷ actions) page h =
    run_from-IsOwned actions (act action page) (act-IsOwned action page h)

-- Whatever is clicked and however the requests and the media rooms answer, in any order: a worker
-- runs only for the active listener or for one whose stop still awaits that its room disconnects,
-- and so does a connection to a room, but for one that came too late and is being left; and while
-- a grant is requested no listener is active, so none is replaced without a stop.
pub run-IsOwned : (actions : List Action) → IsOwned (run actions new_page)
unfolding IsOwned all_owned
run-IsOwned actions = run_from-IsOwned actions new_page (refl, refl)

-- No call of `stopListening` awaits that a room disconnects.
unfoldable pub none_disconnecting : List Listener → Bool
none_disconnecting [] = true
none_disconnecting (listener ∷ listeners) =
    not (is_disconnecting listener.stop) && none_disconnecting listeners

pub all_silent : List Listener → Bool
all_silent [] = true
all_silent (listener ∷ listeners) =
    not listener.has_worker && not listener.is_connected && all_silent listeners

owned_silent :
    (listeners : List Listener)
    → all_owned none no_start listeners ≡ true
    → none_disconnecting listeners ≡ true
    → all_silent listeners ≡ true
unfolding all_owned none_disconnecting all_silent
owned_silent [] owned quiet = refl
owned_silent (listener ∷ listeners) owned quiet = ground (arith, owned_silent listeners)

-- When there is no active listener, no start under way, and no stop that awaits a disconnection, no
-- worker runs and no room is connected, whatever went before.
pub run_silent :
    (actions : List Action)
    → (run actions new_page).active_listener ≡ none
    → (run actions new_page).start ≡ no_start
    → none_disconnecting (run actions new_page).listeners ≡ true
    → all_silent (run actions new_page).listeners ≡ true
unfolding IsOwned
run_silent actions no_active not_started quiet =
    let page = run actions new_page in
    owned_silent page.listeners
      (all_owned_at page.active_listener page.start page.listeners no_active not_started
        (run-IsOwned actions).0)
      quiet
  where
    all_owned_at :
        (active : Option ℕ) (start : Start) (listeners : List Listener)
        → active ≡ none
        → start ≡ no_start
        → all_owned active start listeners ≡ true
        → all_owned none no_start listeners ≡ true
    all_owned_at active start listeners p q h = cc
