-- ===== src/Shared/PressToTalk/Tests.antt =====
-- A press of frontend/src/shared/press-to-talk.ts, and the theorems at inputs.
use dawn_mesh_server.Prelude.{◌≡◌, refl, true, false, List, [], ◌∷◌, some}
use dawn_mesh_server.Shared.PressToTalk.{
  Binding, Event, Page, Source.pointer, Event.pointer_down, Event.pointer_up, Event.blur,
  Effect.prevent_default, Effect.capture, Effect.unlock, Effect.change, bind_press_to_talk,
  dispatch, run, is_held, press, release, listener, pointer_release, same_source,
}
use dawn_mesh_server.Shared.PressToTalk.Balance.{held_after, run_balanced}
use dawn_mesh_server.Shared.PressToTalk.Release.{dispatch_kept}

abbrev page : Page
page = record { available = true; dialog_open = false }

abbrev held : Binding
held = record { source = some (pointer 4); bound = true }

-- A second pointer neither presses nor releases.
abbrev events : List (Page × Event)
events =
    (page, pointer_down 0 4)
    ∷ (page, pointer_down 0 5)
    ∷ (page, pointer_up 5)
    ∷ (page, pointer_up 4)
    ∷ (page, blur)
    ∷ []

run-events :
    (run events bind_press_to_talk).1
    ≡ prevent_default
      ∷ capture 4
      ∷ unlock
      ∷ change true false
      ∷ prevent_default
      ∷ capture 5
      ∷ change false false
      ∷ []
unfolding run dispatch listener press release pointer_release same_source
run-events = refl

run_balanced_example :
    held_after false (run events bind_press_to_talk).1
    ≡ some (is_held (run events bind_press_to_talk).0.source)
run_balanced_example = run_balanced events bind_press_to_talk

dispatch_kept_example : (dispatch page (pointer_up 5) held).0 ≡ held
dispatch_kept_example =
    dispatch_kept page (pointer_up 5) held (pointer 4) refl (unfold same_source in refl) refl
