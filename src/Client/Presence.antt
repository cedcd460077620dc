-- ===== src/Client/Presence.antt =====
-- frontend/src/client/presence.ts: who is announced when members drop out or leave, and which members
-- are shown as connected. A pending timer stands in `pending` until it fires or is cleared.
pub mod Members
pub mod Pending
pub mod Speech
pub mod Display
mod Tests
use dawn_mesh_server.Prelude.{
  ℕ, ◌+◌, Bool, true, false, ◌&&◌, ◌||◌, not, List, [], ◌∷◌, ◌++◌, map, Option, none, some, String,
  length, take, drop, ltb, leb, ◌==◌, if◌then◌else◌,
}
use dawn_mesh_server.Prelude.Maps.{Eq, ◌===◌, string_eq, number_eq, contains, get, put, delete}
use dawn_mesh_server.Crypto.Base64.{Text}
use dawn_mesh_server.Crypto.Hex.{is_space}

pub record Member : Type 0 where
  pub id : String
  pub nickname : Text
  pub connected : Bool

-- What is read of an `ActiveRoom`.
pub record ActiveRoom : Type 0 where
  pub member_id : String
  pub announcements_enabled : Bool
  pub leaving : Bool
  pub room_ended : Bool

-- The rooms by identity, the time in milliseconds, and what `speechSynthesis` offers.
pub record Page : Type 0 where
  pub rooms : ℕ → ActiveRoom
  pub now : ℕ
  pub has_speech : Bool
  pub has_voice : Bool

-- What the callback of `setTimeout` has captured.
pub record Timer : Type 0 where
  pub active : ℕ
  pub nickname : Text

pub record Presence : Type 0 where
  pub owner : Option ℕ
  pub ready : Bool
  pub previous : List (String × Bool)
  pub pending : List (String × Timer)
  pub seen : List String
  pub last_spoken : ℕ

abbrev pub new_presence : Presence
new_presence = record {
  owner = none;
  ready = false;
  previous = [];
  pending = [];
  seen = [];
  last_spoken = 0;
}

pub data Effect : Type 0 where
  cancel : Effect
  utter : (name : Text) (left : Bool) → Effect

-- `name.split('#')[0]`.
unfoldable pub before_hash : Text → Text
before_hash [] = []
before_hash (c ∷ name) = if c == 35 then [] else c ∷ before_hash name

abbrev pub is_control : ℕ → Bool
is_control c = leb c 31 || c == 127

unfoldable pub remove_control : Text → Text
remove_control [] = []
remove_control (c ∷ name) =
    let rest = remove_control name in if is_control c then rest else c ∷ rest

unfoldable pub trim_start : Text → Text
trim_start [] = []
trim_start (c ∷ name) = if is_space c then trim_start name else c ∷ name

abbrev pub trim_before : ℕ → Text → Text
trim_before c [] = if is_space c then [] else c ∷ []
trim_before c (d ∷ rest) = c ∷ d ∷ rest

-- A text without the spaces at its end.
unfoldable pub trim_end : Text → Text
trim_end [] = []
trim_end (c ∷ name) = trim_before c (trim_end name)

-- `'一位成员'`.
abbrev pub a_member : Text
a_member = 0x4e00 ∷ 0x4f4d ∷ 0x6210 ∷ 0x5458 ∷ []

abbrev pub or_a_member : Text → Text
or_a_member [] = a_member
or_a_member (c ∷ name) = c ∷ name

unfoldable pub clean_name : Text → Text
clean_name name = or_a_member (take 24 (trim_end (trim_start (remove_control (before_hash name)))))

abbrev pub is_owner : Option ℕ → ℕ → Bool
is_owner none active = false
is_owner (some owner) active = owner == active

abbrev pub cancel_speech : Page → List Effect
cancel_speech page = if page.has_speech then cancel ∷ [] else []

unfoldable pub reset_presence : Page → ℕ → Presence → Presence × List Effect
reset_presence page active p = (
  record p {
    pending = [];
    previous = [];
    ready = false;
    seen = if is_owner p.owner active then p.seen else [];
    owner = some active;
  },
  cancel_speech page,
)

-- Whether `speak` goes past its guards.
unfoldable pub may_speak : Page → ℕ → Presence → Bool
may_speak page active p =
    let room = page.rooms active in
    is_owner p.owner active
    && room.announcements_enabled
    && not room.leaving
    && not room.room_ended
    && page.has_speech
    && not (ltb page.now (p.last_spoken + 1500))
    && page.has_voice

unfoldable pub speak : Page → ℕ → Text → Bool → Presence → Presence × List Effect
speak page active name left p =
    if may_speak page active p
    then (record p { last_spoken = page.now }, cancel ∷ utter (clean_name name) left ∷ [])
    else (p, [])

-- `new Map(members.map(m => [m.id, m.connected]))`, onto what is there.
unfoldable pub put_members : List Member → List (String × Bool) → List (String × Bool)
put_members [] next = next
put_members (m ∷ members) next = put_members members (put m.id m.connected next)

abbrev pub was_connected : Option Bool → Bool
was_connected none = false
was_connected (some connected) = connected

-- Whether a member that is not connected gets a timer.
unfoldable pub has_dropped : Page → ℕ → Presence → Member → Bool
has_dropped page active p m =
    p.ready
    && was_connected (get m.id p.previous)
    && not (m.id === (page.rooms active).member_id)
    && (page.rooms active).announcements_enabled

-- The loop over the members.
unfoldable pub watch_members :
    Page → ℕ → Presence → List Member → List (String × Timer) → List (String × Timer)
watch_members page active p [] pending = pending
watch_members page active p (m ∷ members) pending = watch_members page active p members (
    if m.connected
    then delete m.id pending
    else if has_dropped page active p m
    then put m.id (record { active = active; nickname = m.nickname }) pending
    else pending)

abbrev pub has_key : Option Bool → Bool
has_key none = false
has_key (some connected) = true

-- The loop over `previous.keys()`.
unfoldable pub forget_gone :
    List (String × Bool) → List (String × Bool) → List (String × Timer) → List (String × Timer)
forget_gone next [] pending = pending
forget_gone next ((id, was) ∷ previous) pending =
    forget_gone next previous (if has_key (get id next) then pending else delete id pending)

-- `observePresence` for a room that owns the channel.
unfoldable pub observe_owned : Page → ℕ → List Member → Presence → Presence × List Effect
observe_owned page active members p =
    let next = put_members members [] in
    let watched = forget_gone next p.previous (watch_members page active p members p.pending) in
    if (page.rooms active).announcements_enabled
    then (record p { pending = watched; previous = next; ready = true }, [])
    else (record p { pending = []; previous = next; ready = true }, cancel_speech page)

unfoldable pub observe_presence : Page → ℕ → List Member → Presence → Presence × List Effect
observe_presence page active members p =
    let first = if is_owner p.owner active then (p, []) else reset_presence page active p in
    let second = observe_owned page active members first.0 in (second.0, first.1 ++ second.1)

abbrev pub is_offline : Option Bool → Bool
is_offline none = false
is_offline (some connected) = not connected

-- The callback of a timer of `pending`.
unfoldable pub timer_fires : Page → String → Timer → Presence → Presence × List Effect
timer_fires page id timer p =
    let deleted = record p { pending = delete id p.pending } in
    if is_offline (get id p.previous)
    then speak page timer.active timer.nickname false deleted
    else (deleted, [])

-- `seen.add(eventId)`, and the oldest leaves beyond 256.
unfoldable pub add_seen : String → List String → List String
add_seen event_id seen =
    let added = seen ++ event_id ∷ [] in if ltb 256 (length added) then drop 1 added else added

unfoldable pub member_left : Page → ℕ → String → Text → String → Presence → Presence × List Effect
member_left page active id name event_id p =
    if not p.ready
      || not (is_owner p.owner active)
      || id === (page.rooms active).member_id
      || event_id === ""
      || contains event_id p.seen
    then (p, [])
    else speak page active name true
        (record p { seen = add_seen event_id p.seen; pending = delete id p.pending })

-- The calls, and the timers that fire.
pub data Action : Type 0 where
  reset : (active : ℕ) → Action
  observe : (active : ℕ) (members : List Member) → Action
  leave : (active : ℕ) (id : String) (name : Text) (event_id : String) → Action
  fire : (id : String) → Action

abbrev pub fire_if : Page → String → Option Timer → Presence → Presence × List Effect
fire_if page id none p = (p, [])
fire_if page id (some timer) p = timer_fires page id timer p

unfoldable pub act : Page → Action → Presence → Presence × List Effect
act page (reset active) p = reset_presence page active p
act page (observe active members) p = observe_presence page active members p
act page (leave active id name event_id) p = member_left page active id name event_id p
act page (fire id) p = fire_if page id (get id p.pending) p

unfoldable pub run : List (Page × Action) → Presence → Presence
run [] p = p
run ((page, action) ∷ actions) p = run actions (act page action p).0
