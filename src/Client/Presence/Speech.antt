-- ===== src/Client/Presence/Speech.antt =====
-- What frontend/src/client/presence.ts says, and when.
use dawn_mesh_server.Prelude.{
  ℕ, zero, suc, ◌+◌, ◌≤◌, ◌<◌, ◌≡◌, refl, ◌∙◌, arith, Bool, true, false, ◌&&◌, ◌||◌, not, List, [],
  ◌∷◌, Option, none, some, String, length, take, length-take, if◌then◌else◌, Bool-cases, inl, inr,
  ◌⊎◌, ◌==◌,
}
use dawn_mesh_server.Prelude.Maps.{◌===◌, string_eq, contains, get, delete}
use dawn_mesh_server.Crypto.Base64.{Text}
use dawn_mesh_server.Client.Presence.{
  Member, Page, Timer, Presence, Effect, Effect.cancel, Effect.utter, Action, Action.reset,
  Action.observe, Action.leave, Action.fire, is_owner, is_offline, reset_presence, cancel_speech,
  may_speak, speak, observe_owned, observe_presence, timer_fires, member_left, add_seen, fire_if,
  act, clean_name, or_a_member, before_hash, remove_control, trim_start, trim_end, trim_before,
  is_control,
}

abbrev pub utterances : List Effect → ℕ
utterances [] = 0
utterances (cancel ∷ effects) = utterances effects
utterances (utter name left ∷ effects) = suc (utterances effects)

speak_once :
    (page : Page) (active : ℕ) (name : Text) (left : Bool) (p : Presence)
    → (may_speak page active p ≡ true)
        × (utterances (speak page active name left p).1 ≡ 1)
        × ((speak page active name left p).0.last_spoken ≡ page.now)
      ⊎ (utterances (speak page active name left p).1 ≡ 0)
        × ((speak page active name left p).0.last_spoken ≡ p.last_spoken)
unfolding speak
speak_once page active name left p = ground arith

cancel-utterances : (page : Page) → utterances (cancel_speech page) ≡ 0
cancel-utterances page = ground arith

-- One action speaks in a room that may speak, or not at all.
data IsCalm (page : Page) (p : Presence) : Presence × List Effect → Type 0 where
  silent :
      (r : Presence × List Effect)
      → utterances r.1 ≡ 0
      → r.0.last_spoken ≡ p.last_spoken
      → IsCalm page p r
  spoken :
      (r : Presence × List Effect)
      → utterances r.1 ≡ 1
      → r.0.last_spoken ≡ page.now
      → p.last_spoken + 1500 ≤ page.now
      → IsCalm page p r

may_speak-waits :
    (page : Page) (active : ℕ) (p : Presence)
    → may_speak page active p ≡ true
    → p.last_spoken + 1500 ≤ page.now
unfolding may_speak
may_speak-waits page active p h = ground arith

speak-IsCalm :
    (page : Page) (active : ℕ) (name : Text) (left : Bool) (p q : Presence)
    → q.last_spoken ≡ p.last_spoken
    → IsCalm page p (speak page active name left q)
speak-IsCalm page active name left p q same = elim (speak_once page active name left q) [
  | inl (allowed, one, now) ↦
      IsCalm.spoken (speak page active name left q) one now
        (rw same at (may_speak-waits page active q allowed))
  | inr (quiet, kept) ↦ IsCalm.silent (speak page active name left q) quiet (kept ∙ same)
]

observe_silent :
    (page : Page) (active : ℕ) (members : List Member) (p : Presence)
    → (utterances (observe_presence page active members p).1 ≡ 0)
      × ((observe_presence page active members p).0.last_spoken ≡ p.last_spoken)
unfolding observe_presence observe_owned reset_presence
observe_silent page active members p = ground arith

reset_silent :
    (page : Page) (active : ℕ) (p : Presence)
    → (utterances (reset_presence page active p).1 ≡ 0)
      × ((reset_presence page active p).0.last_spoken ≡ p.last_spoken)
unfolding reset_presence
reset_silent page active p = ground arith

if-IsCalm :
    (test : Bool) (page : Page) (p q : Presence) (r : Presence × List Effect)
    → q.last_spoken ≡ p.last_spoken
    → IsCalm page p r
    → IsCalm page p (if test then (q, []) else r)
if-IsCalm true page p q r same h = IsCalm.silent (q, []) refl same
if-IsCalm false page p q r same h = h

leave-IsCalm :
    (page : Page) (active : ℕ) (id : String) (name : Text) (event_id : String) (p : Presence)
    → IsCalm page p (member_left page active id name event_id p)
unfolding member_left
leave-IsCalm page active id name event_id p =
    let q = record p { seen = add_seen event_id p.seen; pending = delete id p.pending } in
    if-IsCalm
      (not p.ready
        || not (is_owner p.owner active)
        || id === (page.rooms active).member_id
        || event_id === ""
        || contains event_id p.seen)
      page p p (speak page active name true q) refl (speak-IsCalm page active name true p q refl)

fires-IsCalm :
    (page : Page) (id : String) (timer : Timer) (p : Presence)
    → IsCalm page p (timer_fires page id timer p)
unfolding timer_fires
fires-IsCalm page id timer p =
    let q = record p { pending = delete id p.pending } in
    elim (Bool-cases (is_offline (get id p.previous))) [
      | inl off ↦ rw off (speak-IsCalm page timer.active timer.nickname false p q refl)
      | inr on ↦ rw on (IsCalm.silent (q, []) refl refl)
    ]

act-IsCalm : (page : Page) (action : Action) (p : Presence) → IsCalm page p (act page action p)
unfolding act
act-IsCalm page (reset active) p =
    let quiet = reset_silent page active p in
    IsCalm.silent (reset_presence page active p) quiet.0 quiet.1
act-IsCalm page (observe active members) p =
    let quiet = observe_silent page active members p in
    IsCalm.silent (observe_presence page active members p) quiet.0 quiet.1
act-IsCalm page (leave active id name event_id) p = leave-IsCalm page active id name event_id p
act-IsCalm page (fire id) p = if_pending (get id p.pending)
  where
    if_pending : (o : Option Timer) → IsCalm page p (fire_if page id o p)
    if_pending none = IsCalm.silent (p, []) refl refl
    if_pending (some timer) = fires-IsCalm page id timer p

-- The time of an action, once for each utterance.
abbrev pub at_time : ℕ → ℕ → List ℕ → List ℕ
at_time zero now times = times
at_time (suc n) now times = now ∷ at_time n now times

unfoldable pub spoken_times : List (Page × Action) → Presence → List ℕ
spoken_times [] p = []
spoken_times ((page, action) ∷ actions) p =
    let r = act page action p in at_time (utterances r.1) page.now (spoken_times actions r.0)

-- Times that follow `last`, each at least 1500 ms after the one before.
abbrev pub AreSpaced : ℕ → List ℕ → Type 0
AreSpaced last [] = Unit {0}
AreSpaced last (time ∷ times) = (last + 1500 ≤ time) × AreSpaced time times

-- Over any calls and timers, two utterances are at least 1500 ms apart, and an action makes at most
-- one.
pub spoken_times-AreSpaced :
    (actions : List (Page × Action)) (p : Presence)
    → AreSpaced p.last_spoken (spoken_times actions p)
unfolding spoken_times
spoken_times-AreSpaced [] p = tt
spoken_times-AreSpaced ((page, action) ∷ actions) p =
    spaced_from (act page action p) (act-IsCalm page action p)
      (spoken_times-AreSpaced actions (act page action p).0)
  where
    spaced_from :
        (r : Presence × List Effect)
        → IsCalm page p r
        → AreSpaced r.0.last_spoken (spoken_times actions r.0)
        → AreSpaced p.last_spoken (at_time (utterances r.1) page.now (spoken_times actions r.0))
    spaced_from r (IsCalm.silent _ quiet kept) later = rw (quiet, ← kept) later
    spaced_from r (IsCalm.spoken _ one now waited) later = rw one (waited, rw (← now) later)

-- Text that may be spoken, as a test.
abbrev pub is_printable : ℕ → Bool
is_printable c = not (is_control c) && not (c == 35)

abbrev pub all_printable : Text → Bool
all_printable [] = true
all_printable (c ∷ name) = is_printable c && all_printable name

abbrev has_hash : Text → Bool
has_hash [] = false
has_hash (c ∷ name) = c == 35 || has_hash name

before_hash_lem : (name : Text) → has_hash (before_hash name) ≡ false
unfolding before_hash
before_hash_lem [] = refl
before_hash_lem (c ∷ name) = ground (arith, before_hash_lem name)

remove_control_lem :
    (name : Text) → has_hash name ≡ false → all_printable (remove_control name) ≡ true
unfolding remove_control
remove_control_lem [] h = refl
remove_control_lem (c ∷ name) h = ground (arith, remove_control_lem name)

trim_start_lem : (name : Text) → all_printable name ≡ true → all_printable (trim_start name) ≡ true
unfolding trim_start
trim_start_lem [] h = refl
trim_start_lem (c ∷ name) h = ground (arith, trim_start_lem name)

trim_end_lem : (name : Text) → all_printable name ≡ true → all_printable (trim_end name) ≡ true
unfolding trim_end
trim_end_lem [] h = refl
trim_end_lem (c ∷ name) h = trim_before_lem (trim_end name) (trim_end_lem name (ground arith))
  where
    trim_before_lem :
        (rest : Text) → all_printable rest ≡ true → all_printable (trim_before c rest) ≡ true
    trim_before_lem [] k = ground arith
    trim_before_lem (d ∷ rest) k = ground arith

take_printable :
    (n : ℕ) (name : Text) → all_printable name ≡ true → all_printable (take n name) ≡ true
take_printable zero name h = refl
take_printable (suc n) [] h = refl
take_printable (suc n) (c ∷ name) h = ground (arith, take_printable n name)

or_a_member_lem :
    (name : Text)
    → all_printable name ≡ true
    → length name ≤ 24
    → (all_printable (or_a_member name) ≡ true)
      × (0 < length (or_a_member name))
      × (length (or_a_member name) ≤ 24)
or_a_member_lem [] h small = (ground arith, omega arith, omega arith)
or_a_member_lem (c ∷ name) h small = (h, omega arith, small)

-- Of any name what is spoken has from 1 to 24 code units, none of them a control character or `#`.
pub clean_name_lem :
    (name : Text)
    → (all_printable (clean_name name) ≡ true)
      × (0 < length (clean_name name))
      × (length (clean_name name) ≤ 24)
unfolding clean_name
clean_name_lem name =
    let trimmed = trim_end (trim_start (remove_control (before_hash name))) in
    or_a_member_lem (take 24 trimmed)
      (take_printable 24 trimmed (
        trim_end_lem (trim_start (remove_control (before_hash name))) (
          trim_start_lem (remove_control (before_hash name))
            (remove_control_lem (before_hash name) (before_hash_lem name)))))
      (omega (arith, length-take 24 trimmed))
