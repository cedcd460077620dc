-- ===== src/Client/Presence/Pending.antt =====
-- Which timers frontend/src/client/presence.ts keeps.
use dawn_mesh_server.Prelude.{
  ℕ, ◌≤◌, ◌≡◌, refl, arith, Bool, true, false, ◌||◌, not, List, [], ◌∷◌, ◌++◌, Option, none, some,
  String, length, length-append, length-drop, if◌then◌else◌, Bool-cases, Option-cases, inl, inr,
  ◌⊎◌,
}
use dawn_mesh_server.Prelude.Maps.{
  ◌===◌, string_eq, contains, get, put, delete, get-put, get-delete,
}
use dawn_mesh_server.Client.Presence.{
  Member, Page, Timer, Presence, new_presence, Effect, Action, Action.reset, Action.observe,
  Action.leave, Action.fire, is_owner, is_offline, has_key, put_members, has_dropped, watch_members,
  forget_gone, reset_presence, speak, observe_owned, observe_presence, timer_fires, member_left,
  add_seen, fire_if, act, run,
}

abbrev is_some {ℓ} : {A : Type ℓ} → Option A → Bool
is_some none = false
is_some (some a) = true

-- A timer is pending only for a member that was last seen offline.
pub AreOffline : Presence → Type 0
AreOffline p =
    (id : String) → is_some (get id p.pending) ≡ true → is_offline (get id p.previous) ≡ true

-- While the members are read, a timer is one of theirs that is offline, or an old one.
IsWatched : List (String × Timer) → List (String × Timer) → List (String × Bool) → Type 0
IsWatched old pending next =
    (id : String)
    → is_some (get id pending) ≡ true
    → (is_offline (get id next) ≡ true)
      ⊎ ((has_key (get id next) ≡ false) × (is_some (get id old) ≡ true))

watch_one : Bool → Bool → String → Timer → List (String × Timer) → List (String × Timer)
watch_one connected dropped id timer pending =
    if connected then delete id pending else if dropped then put id timer pending else pending

watch_one-IsWatched :
    (connected dropped : Bool) (j : String) (timer : Timer) (old pending : List (String × Timer))
    (next : List (String × Bool))
    → IsWatched old pending next
    → IsWatched old (watch_one connected dropped j timer pending) (put j connected next)
unfolding watch_one IsWatched
watch_one-IsWatched true dropped j timer old pending next h id some_left =
    ground (arith, h id, get-delete j id pending, get-put j id true next)
watch_one-IsWatched false true j timer old pending next h id some_left =
    ground (arith, h id, get-put j id timer pending, get-put j id false next)
watch_one-IsWatched false false j timer old pending next h id some_left =
    ground (arith, h id, get-put j id false next)

watch-IsWatched :
    (page : Page) (active : ℕ) (p : Presence) (members : List Member)
    (old pending : List (String × Timer)) (next : List (String × Bool))
    → IsWatched old pending next
    → IsWatched old (watch_members page active p members pending) (put_members members next)
unfolding watch_members put_members watch_one
watch-IsWatched page active p [] old pending next h = h
watch-IsWatched page active p (m ∷ members) old pending next h =
    let timer : Timer = record { active = active; nickname = m.nickname } in
    let dropped = has_dropped page active p m in
    watch-IsWatched page active p members old (watch_one m.connected dropped m.id timer pending)
      (put m.id m.connected next)
      (watch_one-IsWatched m.connected dropped m.id timer old pending next h)

-- What `forget_gone` leaves was there, and is not of a member of `previous` that is gone.
forget_gone_left :
    (next previous : List (String × Bool)) (pending : List (String × Timer)) (id : String)
    → is_some (get id (forget_gone next previous pending)) ≡ true
    → (is_some (get id pending) ≡ true)
      × ((has_key (get id next) ≡ true) ⊎ (has_key (get id previous) ≡ false))
unfolding forget_gone
forget_gone_left next [] pending id h = (h, inr refl)
forget_gone_left next ((j, was) ∷ previous) pending id h = ground (
  arith,
  forget_gone_left next previous (if has_key (get j next) then pending else delete j pending) id h,
  get-delete j id pending,
  string_eq.beq_iff j id,
)

observe_owned-AreOffline :
    (page : Page) (active : ℕ) (members : List Member) (p : Presence)
    → AreOffline p
    → AreOffline (observe_owned page active members p).0
unfolding observe_owned AreOffline IsWatched
observe_owned-AreOffline page active members p h =
    elim (Bool-cases (page.rooms active).announcements_enabled) [
      | inl on ↦ rw on (λ id some_left.
          let next = put_members members [] in
          let watched = watch_members page active p members p.pending in
          let left = forget_gone_left next p.previous watched id some_left in
          let origin =
            watch-IsWatched page active p members p.pending p.pending []
              (λ j some_old. inr (refl, some_old)) id left.0 in
          ground (arith, left.1, origin, h id))
      | inr off ↦ rw off (λ id some_left. cc)
    ]

reset-AreOffline :
    (page : Page) (active : ℕ) (p : Presence) → AreOffline (reset_presence page active p).0
unfolding reset_presence AreOffline
reset-AreOffline page active p = λ id some_left. cc

speak_keeps :
    (page : Page) (active : ℕ) (name : List ℕ) (left : Bool) (p : Presence)
    → ((speak page active name left p).0.pending ≡ p.pending)
      × ((speak page active name left p).0.previous ≡ p.previous)
      × ((speak page active name left p).0.seen ≡ p.seen)
unfolding speak
speak_keeps page active name left p = ground arith

deleted-AreOffline :
    (p : Presence) (id : String)
    → AreOffline p
    → AreOffline (record p { pending = delete id p.pending })
unfolding AreOffline
deleted-AreOffline p id h j some_left = ground (arith, h j, get-delete id j p.pending)

speak-AreOffline :
    (page : Page) (active : ℕ) (name : List ℕ) (left : Bool) (p : Presence)
    → AreOffline p
    → AreOffline (speak page active name left p).0
unfolding AreOffline
speak-AreOffline page active name left p h =
    let kept = speak_keeps page active name left p in rw (kept.0, kept.1) h

observe-AreOffline :
    (page : Page) (active : ℕ) (members : List Member) (p : Presence)
    → AreOffline p
    → AreOffline (observe_presence page active members p).0
unfolding observe_presence
observe-AreOffline page active members p h = elim (Bool-cases (is_owner p.owner active)) [
  | inl mine ↦ rw mine (observe_owned-AreOffline page active members p h)
  | inr other ↦ rw other (
      observe_owned-AreOffline page active members (reset_presence page active p).0
        (reset-AreOffline page active p))
]

if-AreOffline :
    (test : Bool) (p : Presence) (r : Presence × List Effect)
    → AreOffline p
    → AreOffline r.0
    → AreOffline (if test then (p, []) else r).0
if-AreOffline true p r h k = h
if-AreOffline false p r h k = k

leave-AreOffline :
    (page : Page) (active : ℕ) (id : String) (name : List ℕ) (event_id : String) (p : Presence)
    → AreOffline p
    → AreOffline (member_left page active id name event_id p).0
unfolding member_left AreOffline
leave-AreOffline page active id name event_id p h =
    let q = record p { seen = add_seen event_id p.seen; pending = delete id p.pending } in
    if-AreOffline
      (not p.ready
        || not (is_owner p.owner active)
        || id === (page.rooms active).member_id
        || event_id === ""
        || contains event_id p.seen)
      p (speak page active name true q) h
      (speak-AreOffline page active name true q (deleted-AreOffline p id h))

fires-AreOffline :
    (page : Page) (id : String) (timer : Timer) (p : Presence)
    → AreOffline p
    → AreOffline (timer_fires page id timer p).0
unfolding timer_fires
fires-AreOffline page id timer p h =
    let q = record p { pending = delete id p.pending } in
    let kept = deleted-AreOffline p id h in
    elim (Bool-cases (is_offline (get id p.previous))) [
      | inl off ↦ rw off (speak-AreOffline page timer.active timer.nickname false q kept)
      | inr on ↦ rw on kept
    ]

act-AreOffline :
    (page : Page) (action : Action) (p : Presence) → AreOffline p → AreOffline (act page action p).0
unfolding act
act-AreOffline page (reset active) p h = reset-AreOffline page active p
act-AreOffline page (observe active members) p h = observe-AreOffline page active members p h
act-AreOffline page (leave active id name event_id) p h =
    leave-AreOffline page active id name event_id p h
act-AreOffline page (fire id) p h = if_pending (get id p.pending)
  where
    if_pending : (o : Option Timer) → AreOffline (fire_if page id o p).0
    if_pending none = h
    if_pending (some timer) = fires-AreOffline page id timer p h

run-AreOffline :
    (actions : List (Page × Action)) (p : Presence) → AreOffline p → AreOffline (run actions p)
unfolding run
run-AreOffline [] p h = h
run-AreOffline ((page, action) ∷ actions) p h =
    run-AreOffline actions (act page action p).0 (act-AreOffline page action p h)

-- Whatever is called and whichever timers fire, a timer is pending only for a member that was last
-- observed as not connected: one that came back, or is gone, has none.
pub run_pending :
    (actions : List (Page × Action)) (id : String) (timer : Timer)
    → get id (run actions new_presence).pending ≡ some timer
    → get id (run actions new_presence).previous ≡ some false
unfolding AreOffline
run_pending actions id timer h =
    let offline = run-AreOffline actions new_presence (λ j some_left. cc) id (rw h refl) in
    ground (arith, offline)

add_seen-le :
    (event_id : String) (seen : List String)
    → length seen ≤ 256
    → length (add_seen event_id seen) ≤ 256
unfolding add_seen
add_seen-le event_id seen h =
    ground (arith, length-append seen (event_id ∷ []), length-drop 1 (seen ++ event_id ∷ []))

act-seen :
    (page : Page) (action : Action) (p : Presence)
    → length p.seen ≤ 256
    → length (act page action p).0.seen ≤ 256
unfolding act reset_presence observe_presence observe_owned member_left timer_fires
act-seen page (reset active) p h = ground arith
act-seen page (observe active members) p h = ground arith
act-seen page (leave active id name event_id) p h =
    let q = record p { seen = add_seen event_id p.seen; pending = delete id p.pending } in
    ground (arith, speak_keeps page active name true q, add_seen-le event_id p.seen h)
act-seen page (fire id) p h = elim (Option-cases (get id p.pending)) [
  | inl nothing ↦ rw nothing h
  | inr (timer, found) ↦
      let q = record p { pending = delete id p.pending } in
      rw found (ground (arith, speak_keeps page timer.active timer.nickname false q))
]

-- At most 256 events are remembered.
pub run_seen :
    (actions : List (Page × Action)) (p : Presence)
    → length p.seen ≤ 256
    → length (run actions p).seen ≤ 256
unfolding run
run_seen [] p h = h
run_seen ((page, action) ∷ actions) p h =
    run_seen actions (act page action p).0 (act-seen page action p h)
