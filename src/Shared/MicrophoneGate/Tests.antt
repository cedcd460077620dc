-- ===== src/Shared/MicrophoneGate/Tests.antt =====
-- A press that is released, or disposed of, while `unmute` is pending, and the theorems at inputs.
use dawn_mesh_server.Prelude.{◌≡◌, ◌≤◌, ◌⊎◌, refl, true, false, some}
use dawn_mesh_server.Shared.MicrophoneGate.{
  GatedTrack, Gate, Call, Progress, Reached, Phase.idle, Phase.unmuting, new_gate, attach, set_gate,
  dispose, begin_operation, continue_operation,
}
use dawn_mesh_server.Shared.MicrophoneGate.Invariant.{is_enabled, is_stopped}
use dawn_mesh_server.Shared.MicrophoneGate.Draining.{
  Run, work, Run-ends, release_closes, dispose_stops,
}

abbrev live : GatedTrack
live = record { enabled = true; stopped = false }

-- Attached and pressed; the operation waits for `unmute`.
abbrev pressed : Gate
pressed = record {
  wanted = true;
  disposed = false;
  track = some (record { enabled = false; stopped = false });
  queued = 0;
  phase = unmuting;
}

abbrev queued : Gate
queued = record pressed { queued = 1; phase = idle }

attached : Reached (record pressed { wanted = false; phase = idle })
attached = unfold attach in Reached.called Reached.new (Call.attaches live new_gate refl)

pressed-Reached : Reached pressed
pressed-Reached =
    unfold set_gate begin_operation in
    Reached.progressed
      (Reached.called attached (Call.sets true (record pressed { wanted = false; phase = idle })))
      (Progress.begins queued 0 refl refl)

-- The late `unmute` opens the track; its continuation closes it, and so does the next operation.
abbrev ended : Gate
ended = record pressed { wanted = false; phase = idle }

release-Run : Run 5 (set_gate false pressed) ended
release-Run =
    unfold set_gate begin_operation continue_operation in
    Run.goes (Progress.unmute_fulfils live (set_gate false pressed) refl) (
      Run.goes (Progress.continues _ refl) (
        Run.goes (Progress.mute_settles _ refl) (
          Run.goes (Progress.begins _ 0 refl refl)
            (Run.goes (Progress.mute_settles _ refl) (Run.rests ended)))))

abbrev gone : Gate
gone = record {
  wanted = false;
  disposed = true;
  track = some (record { enabled = false; stopped = true });
  queued = 0;
  phase = idle;
}

dispose-Run : Run 2 (dispose pressed) gone
dispose-Run =
    unfold dispose continue_operation in
    Run.goes (Progress.unmute_fulfils live (dispose pressed) refl)
      (Run.goes (Progress.continues _ refl) (Run.rests gone))

release_closes_example :
    (is_enabled (set_gate false pressed).track ≡ false) × (is_enabled ended.track ≡ false)
release_closes_example = release_closes pressed ended pressed-Reached release-Run refl

dispose_stops_example : (is_stopped (dispose pressed).track ≡ true) × (is_stopped gone.track ≡ true)
dispose_stops_example = dispose_stops pressed gone pressed-Reached dispose-Run refl

Run-ends_example : (2 ≤ work (dispose pressed)) × ((work gone ≡ 0) ⊎ ((k : Gate) × Progress gone k))
Run-ends_example = Run-ends dispose-Run
