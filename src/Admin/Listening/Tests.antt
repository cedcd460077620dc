-- ===== src/Admin/Listening/Tests.antt =====
-- Two listeners one after the other, and the theorems at inputs.
use dawn_mesh_server.Prelude.{◌≡◌, refl, true, false, List, [], ◌∷◌, none, map}
use dawn_mesh_server.Admin.Listening.{
  new_page, no_start, stop_listening, on_stop_disconnected, on_stop_deleted, on_stop_overview,
  awaits_disconnect, awaits_overview,
}
use dawn_mesh_server.Admin.Listening.Starting.{
  Action, clicks_listen, clicks_stop, heartbeat, answers, heartbeat_answers, stop_disconnects,
  stop_loads_overview, stop_deletes, act, run, start_listening, on_media_loaded, on_granted,
  on_key_set, on_connected, on_answer, on_heartbeat, on_heartbeat_answer, on_left,
}
use dawn_mesh_server.Admin.Listening.Owned.Runs.{none_disconnecting, all_silent, run_silent}

-- Listening begins, and is stopped while the room connects.
abbrev stopped_early : List Action
stopped_early =
    clicks_listen "a" true
    ∷ answers true
    ∷ answers true
    ∷ answers true
    ∷ clicks_stop
    ∷ stop_disconnects 0
    ∷ answers true
    ∷ answers true
    ∷ stop_deletes 0 true
    ∷ stop_loads_overview 0
    ∷ []

early_stops : none_disconnecting (run stopped_early new_page).listeners ≡ true
unfolding run act on_answer on_granted on_key_set on_connected on_left start_listening
    on_media_loaded stop_listening on_stop_disconnected on_stop_deleted on_stop_overview
    none_disconnecting
early_stops = refl

not_started : (run stopped_early new_page).start ≡ no_start
unfolding run act on_answer on_granted on_key_set on_connected on_left start_listening
    on_media_loaded stop_listening on_stop_disconnected on_stop_deleted on_stop_overview
not_started = refl

no_active : (run stopped_early new_page).active_listener ≡ none
unfolding run act on_answer on_granted on_key_set on_connected on_left start_listening
    on_media_loaded stop_listening on_stop_disconnected on_stop_deleted on_stop_overview
no_active = refl

run_silent_example : all_silent (run stopped_early new_page).listeners ≡ true
run_silent_example = run_silent stopped_early no_active not_started early_stops

-- The first listener's heartbeat is answered with a failure once the second one is there: the second
-- is stopped, and the server is not told.
abbrev late_beat : List Action
late_beat =
    clicks_listen "a" true
    ∷ answers true
    ∷ answers true
    ∷ answers true
    ∷ answers true
    ∷ answers true
    ∷ heartbeat
    ∷ clicks_stop
    ∷ stop_disconnects 0
    ∷ stop_deletes 0 true
    ∷ clicks_listen "b" true
    ∷ answers true
    ∷ answers true
    ∷ answers true
    ∷ answers true
    ∷ answers true
    ∷ heartbeat_answers false
    ∷ []

second_stopped :
    map (λ listener. listener.stop) (run late_beat new_page).listeners
    ≡ awaits_disconnect false ∷ awaits_overview ∷ []
unfolding run act on_answer on_granted on_key_set on_connected on_left start_listening
    on_media_loaded stop_listening on_stop_disconnected on_stop_deleted on_stop_overview
    on_heartbeat on_heartbeat_answer
second_stopped = refl
