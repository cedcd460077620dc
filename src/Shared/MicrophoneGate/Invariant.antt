-- ===== src/Shared/MicrophoneGate/Invariant.antt =====
-- When the microphone of frontend/src/shared/microphone-gate.ts can be open.
use dawn_mesh_server.Prelude.{◌≡◌, ◌≢◌, arith, Bool, true, false, ◌&&◌, not, Option, none, some}
use dawn_mesh_server.Shared.MicrophoneGate.{
  GatedTrack, Gate, Call, Progress, Reached, Phase.idle, Phase.unmuted, attach, set_gate, dispose,
  begin_operation, continue_operation,
}

abbrev pub is_enabled : Option GatedTrack → Bool
is_enabled none = false
is_enabled (some t) = t.enabled

abbrev pub is_stopped : Option GatedTrack → Bool
is_stopped none = true
is_stopped (some t) = t.stopped && not t.enabled

-- Only the continuation of a fulfilled `unmute`, which comes next, may find the track open against
-- the page's wish.
pub record IsGuarded (g : Gate) : Type 0 where
  pub closed : g.wanted ≡ false → g.phase ≢ unmuted → is_enabled g.track ≡ false
  pub unwanted : g.disposed ≡ true → g.wanted ≡ false
  pub stopped : g.disposed ≡ true → g.phase ≢ unmuted → is_stopped g.track ≡ true

Call-IsGuarded : {g h : Gate} → Call g h → IsGuarded g → IsGuarded h
unfolding attach set_gate dispose
Call-IsGuarded (Call.attaches t g fresh) i = record {
  closed = ground arith;
  unwanted = ground (arith, i.unwanted);
  stopped = ground (arith, i.stopped);
}
Call-IsGuarded (Call.sets enabled g) i = record {
  closed = ground (arith, i.closed);
  unwanted = ground (arith, i.unwanted);
  stopped = ground (arith, i.stopped);
}
Call-IsGuarded (Call.disposes g) i = record {
  closed = ground (arith, i.closed);
  unwanted = ground (arith, i.unwanted);
  stopped = ground (arith, i.stopped);
}

continue-IsGuarded : (g : Gate) → IsGuarded g → IsGuarded (continue_operation g)
unfolding continue_operation
continue-IsGuarded g i = record {
  closed = ground (arith, i.closed);
  unwanted = ground (arith, i.unwanted);
  stopped = ground (arith, i.stopped, i.unwanted);
}

begin-IsGuarded : (g : Gate) → g.phase ≡ idle → IsGuarded g → IsGuarded (begin_operation g)
unfolding begin_operation continue_operation
begin-IsGuarded g h i = record {
  closed = ground (arith, i.closed);
  unwanted = ground (arith, i.unwanted);
  stopped = ground (arith, i.stopped, i.unwanted);
}

pub Progress-IsGuarded : {g h : Gate} → Progress g h → IsGuarded g → IsGuarded h
Progress-IsGuarded (Progress.begins g n at_rest more) i =
    begin-IsGuarded (record g { queued = n }) at_rest
      (record { closed = i.closed; unwanted = i.unwanted; stopped = i.stopped })
Progress-IsGuarded (Progress.unmute_fulfils t g waits) i = record {
  closed = ground arith;
  unwanted = ground (arith, i.unwanted);
  stopped = ground arith;
}
Progress-IsGuarded (Progress.unmute_rejects g waits) i = record {
  closed = ground (arith, i.closed);
  unwanted = ground (arith, i.unwanted);
  stopped = ground (arith, i.stopped);
}
Progress-IsGuarded (Progress.continues g done) i = continue-IsGuarded g i
Progress-IsGuarded (Progress.mute_settles g waits) i = record {
  closed = ground (arith, i.closed);
  unwanted = ground (arith, i.unwanted);
  stopped = ground (arith, i.stopped);
}

-- In every reached state the track is closed unless the page wants it open or `unmute` has just
-- fulfilled, and after `dispose` it is also stopped, with the same exception.
pub Reached-IsGuarded : {g : Gate} → Reached g → IsGuarded g
Reached-IsGuarded Reached.new = record {
  closed = ground arith;
  unwanted = ground arith;
  stopped = ground arith;
}
Reached-IsGuarded (Reached.called r step) = Call-IsGuarded step (Reached-IsGuarded r)
Reached-IsGuarded (Reached.progressed r step) = Progress-IsGuarded step (Reached-IsGuarded r)
