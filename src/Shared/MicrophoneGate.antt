-- ===== src/Shared/MicrophoneGate.antt =====
-- `MicrophoneGate` of frontend/src/shared/microphone-gate.ts: its methods, and the promise chain
-- `pending` as a step relation in which the SDK's `unmute` and `mute` take their time.
pub mod Invariant
pub mod Draining
mod Tests
use dawn_mesh_server.Prelude.{
  ℕ, suc, Bool, true, false, ◌&&◌, ◌||◌, not, Option, none, some, if◌then◌else◌, ◌≡◌,
}

-- A `GatedTrack`: `mediaStreamTrack.enabled`, and whether its last device was stopped.
pub record GatedTrack : Type 0 where
  pub enabled : Bool
  pub stopped : Bool

-- Where the operation that runs is: before its first instruction, waiting for `unmute`, with
-- `unmute` done and its continuation still to run, or waiting for `mute`.
pub data Phase : Type 0 where
  idle unmuting unmuted muting : Phase

-- `queued` is how many operations of `pending` have not begun.
pub record Gate : Type 0 where
  pub wanted : Bool
  pub disposed : Bool
  pub track : Option GatedTrack
  pub queued : ℕ
  pub phase : Phase

abbrev pub new_gate : Gate
new_gate = record { wanted = false; disposed = false; track = none; queued = 0; phase = idle }

abbrev pub close : GatedTrack → GatedTrack
close t = record t { enabled = false }

-- `stop()`, of the track or of the device.
abbrev pub stop : GatedTrack → GatedTrack
stop t = record t { stopped = true }

abbrev pub close_track : Option GatedTrack → Option GatedTrack
close_track none = none
close_track (some t) = some (close t)

abbrev pub stop_track : Option GatedTrack → Option GatedTrack
stop_track none = none
stop_track (some t) = some (stop (close t))

-- `attach`; the second result is what the caller's track has become.
unfoldable pub attach : GatedTrack → Gate → Gate × GatedTrack
attach t g = if g.disposed then (g, stop t) else (record g { track = some (close t) }, close t)

-- `set`, up to the operation that it appends to `pending`.
unfoldable pub set_gate : Bool → Gate → Gate
set_gate enabled g =
    let wanted = enabled && not g.disposed in
    record g {
      wanted = wanted;
      track = if wanted then g.track else close_track g.track;
      queued = suc g.queued;
    }

unfoldable pub dispose : Gate → Gate
dispose g = record g { disposed = true; wanted = false; track = stop_track g.track }

-- From the continuation of `unmute`, or from the first instruction if nothing is unmuted, on.
unfoldable pub continue_operation : Gate → Gate
continue_operation g =
    if g.disposed
    then record g { track = stop_track g.track; phase = idle }
    else if g.wanted
    then record g { phase = idle }
    else record g { track = close_track g.track; phase = muting }

abbrev pub has_track : Option GatedTrack → Bool
has_track none = false
has_track (some t) = true

-- The first instructions of an operation, once the one before it has settled.
unfoldable pub begin_operation : Gate → Gate
begin_operation g =
    if not (has_track g.track) || g.disposed
    then record g { phase = idle }
    else if g.wanted
    then record g { phase = unmuting }
    else continue_operation g

-- The methods that the page calls; it attaches one track to a gate.
pub data Call : Gate → Gate → Type 0 where
  attaches : (t : GatedTrack) (g : Gate) → g.track ≡ none → Call g (attach t g).0
  sets : (enabled : Bool) (g : Gate) → Call g (set_gate enabled g)
  disposes : (g : Gate) → Call g (dispose g)

-- What the chain of operations does next. `unmute` may enable the track, or give it another device,
-- when it fulfils, and does neither when it rejects.
pub data Progress : Gate → Gate → Type 0 where
  begins :
      (g : Gate) (n : ℕ)
      → g.phase ≡ idle
      → g.queued ≡ suc n
      → Progress g (begin_operation (record g { queued = n }))
  unmute_fulfils :
      (t : GatedTrack) (g : Gate)
      → g.phase ≡ unmuting
      → Progress g (record g { track = some t; phase = unmuted })
  unmute_rejects : (g : Gate) → g.phase ≡ unmuting → Progress g (record g { phase = idle })
  continues : (g : Gate) → g.phase ≡ unmuted → Progress g (continue_operation g)
  mute_settles : (g : Gate) → g.phase ≡ muting → Progress g (record g { phase = idle })

-- Reached from a new gate by calls and progress in any order.
pub data Reached : Gate → Type 0 where
  new : Reached new_gate
  called : {g h : Gate} → Reached g → Call g h → Reached h
  progressed : {g h : Gate} → Reached g → Progress g h → Reached h
