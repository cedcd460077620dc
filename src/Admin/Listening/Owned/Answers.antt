-- ===== src/Admin/Listening/Owned/Answers.antt =====
-- The answers that `startListening` of frontend/src/admin/app.ts awaits keep what runs owned.
use dawn_mesh_server.Prelude.{
  ℕ, ◌≡◌, refl, arith, Bool, true, false, List, Option, none, some, String, if◌then◌else◌, eq→==,
  Bool-cases, inl, inr,
}
use dawn_mesh_server.Admin.Listening.{
  Listener, Start, no_start, awaits_new_overview, awaits_media, awaits_grant, awaits_old_stop,
  awaits_key, awaits_connect, awaits_leave, awaits_failed_stop, Page, is_id, is_none, change,
  has_returned,
}
use dawn_mesh_server.Admin.Listening.Starting.{
  on_media_loaded, on_granted, terminate, connect, leave, on_key_set, on_connected, on_left,
  on_start_failed, on_leave_failed, on_answer,
}
use dawn_mesh_server.Admin.Listening.Owned.{
  all_owned, is_free, IsOwned, same_owned, is_leaving, granted_owned, terminate_owned,
  connect_owned, connect_late_owned, leave_owned, leave_failed_owned, set_start-IsOwned,
  stop_then-IsOwned, change-IsOwned,
}

granted-IsOwned :
    (room_id : String) (page : Page)
    → page.start ≡ awaits_grant room_id
    → IsOwned page
    → IsOwned (on_granted room_id page)
unfolding IsOwned on_granted all_owned
granted-IsOwned room_id page at_grant h =
    let free = none_of page.active_listener (rw at_grant at h.1) in
    let owned =
      all_owned_at page.start (awaits_grant room_id) page.active_listener none page.listeners
        at_grant free h.0 in
    let key = awaits_key page.next_id in
    let rest =
      same_owned none (some page.next_id) (awaits_grant room_id) key
        (granted_owned page.next_id room_id) page.listeners owned in
    (rw (rest, eq→== page.next_id page.next_id refl) refl, refl)
  where
    none_of : (active : Option ℕ) → is_none active ≡ true → active ≡ none
    none_of active h = ground arith

    all_owned_at :
        (start at : Start) (active free : Option ℕ) (listeners : List Listener)
        → start ≡ at
        → active ≡ free
        → all_owned active start listeners ≡ true
        → all_owned free at listeners ≡ true
    all_owned_at start at active free listeners p q h = cc

key_set-IsOwned :
    (id : ℕ) (page : Page)
    → page.start ≡ awaits_key id
    → IsOwned page
    → IsOwned (on_key_set id page)
unfolding on_key_set
key_set-IsOwned id page same h = elim (Bool-cases (is_id id page.active_listener)) [
  | inl is_active ↦ rw is_active (set_start-IsOwned (awaits_connect id) page (rw same refl) refl h)
  | inr other ↦ rw other (
      change-IsOwned id terminate no_start page
        (λ listener owned. terminate_owned id page.active_listener listener (rw same at owned)) refl
        h)
]

connected-IsOwned :
    (id : ℕ) (page : Page)
    → page.start ≡ awaits_connect id
    → IsOwned page
    → IsOwned (on_connected id page)
unfolding on_connected IsOwned
connected-IsOwned id page same h = elim (Bool-cases (is_id id page.active_listener)) [
  | inl is_active ↦ rw is_active (
      change-IsOwned id connect awaits_new_overview page
        (λ listener owned.
          connect_owned id page.active_listener listener is_active (rw same at owned))
        refl h)
  | inr other ↦ rw other (
      change-IsOwned id connect (awaits_leave id) page
        (λ listener owned. connect_late_owned id page.active_listener listener (rw same at owned))
        refl h)
]

left-IsOwned :
    (id : ℕ) (page : Page) → page.start ≡ awaits_leave id → IsOwned page → IsOwned (on_left id page)
unfolding on_left
left-IsOwned id page same h =
    change-IsOwned id leave no_start page
      (λ listener owned. leave_owned id page.active_listener listener (rw same at owned)) refl h

start_failed-IsOwned :
    (page : Page) → is_leaving page.start ≡ false → IsOwned page → IsOwned (on_start_failed page)
unfolding on_start_failed
start_failed-IsOwned page not_leaving h =
    stop_then-IsOwned true (awaits_failed_stop page.active_listener) page not_leaving h

leave_failed-IsOwned :
    (id : ℕ) (page : Page)
    → page.start ≡ awaits_leave id
    → IsOwned page
    → IsOwned (on_leave_failed id page)
unfolding on_leave_failed on_start_failed
leave_failed-IsOwned id page same h =
    start_failed-IsOwned
      (record (change id (λ l. record l { is_connected = false }) page) { start = no_start }) refl
      (change-IsOwned id (λ l. record l { is_connected = false }) no_start page
        (λ listener owned.
          leave_failed_owned id page.active_listener no_start listener (rw same at owned))
        refl h)

media_loaded-IsOwned :
    (room_id : String) (page : Page)
    → page.start ≡ awaits_media room_id
    → IsOwned page
    → IsOwned (on_media_loaded room_id page)
unfolding on_media_loaded
media_loaded-IsOwned room_id page same h = elim (Bool-cases (is_none page.active_listener)) [
  | inl free ↦ rw free (set_start-IsOwned (awaits_grant room_id) page (rw same refl) free h)
  | inr taken ↦
      rw taken (
        stop_then-IsOwned true (awaits_old_stop room_id page.active_listener) page (rw same refl) h)
]

returned-IsOwned :
    (b : Bool) (later : Start) (page : Page)
    → is_leaving page.start ≡ false
    → is_free page.active_listener later ≡ true
    → IsOwned page
    → IsOwned (if b then record page { start = later } else page)
returned-IsOwned true later page not_leaving free h =
    set_start-IsOwned later page not_leaving free h
returned-IsOwned false later page not_leaving free h = h

pub answer-IsOwned :
    (start : Start) (answered : Bool) (page : Page)
    → page.start ≡ start
    → IsOwned page
    → IsOwned (on_answer start answered page)
unfolding on_answer IsOwned
answer-IsOwned no_start answered page same h = h
answer-IsOwned (awaits_media room_id) true page same h = media_loaded-IsOwned room_id page same h
answer-IsOwned (awaits_media room_id) false page same h =
    set_start-IsOwned no_start page (rw same refl) refl h
answer-IsOwned (awaits_old_stop room_id old) answered page same h =
    returned-IsOwned (has_returned old page) (awaits_grant room_id) page (rw same refl)
      (rw same at h.1) h
answer-IsOwned (awaits_grant room_id) true page same h = granted-IsOwned room_id page same h
answer-IsOwned (awaits_grant room_id) false page same h =
    set_start-IsOwned no_start page (rw same refl) refl h
answer-IsOwned (awaits_key id) true page same h = key_set-IsOwned id page same h
answer-IsOwned (awaits_key id) false page same h = start_failed-IsOwned page (rw same refl) h
answer-IsOwned (awaits_connect id) true page same h = connected-IsOwned id page same h
answer-IsOwned (awaits_connect id) false page same h = start_failed-IsOwned page (rw same refl) h
answer-IsOwned (awaits_leave id) true page same h = left-IsOwned id page same h
answer-IsOwned (awaits_leave id) false page same h = leave_failed-IsOwned id page same h
answer-IsOwned awaits_new_overview true page same h =
    set_start-IsOwned no_start page (rw same refl) refl h
answer-IsOwned awaits_new_overview false page same h = start_failed-IsOwned page (rw same refl) h
answer-IsOwned (awaits_failed_stop failed) answered page same h =
    returned-IsOwned (has_returned failed page) no_start page (rw same refl) refl h
