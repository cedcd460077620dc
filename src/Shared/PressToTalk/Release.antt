-- ===== src/Shared/PressToTalk/Release.antt =====
-- What ends a press in frontend/src/shared/press-to-talk.ts, and what does not.
use dawn_mesh_server.Prelude.{
  ◌≡◌, refl, arith, Bool, true, false, List, [], ◌∷◌, none, some, if◌then◌else◌,
}
use dawn_mesh_server.Shared.PressToTalk.{
  Source, Binding, Event, Page, same_source, is_held, release, press, pointer_release, on_key_down,
  on_key_up, listener, dispatch, run, Source.pointer, Source.key, Event.pointer_down,
  Event.pointer_up, Event.pointer_cancel, Event.lost_capture, Event.key_down, Event.key_up,
  Event.focus_in, Event.visibility_change, Event.blur, Event.page_hide, Event.unbind, Effect.change,
}

-- The events that end any press: the page loses focus or is hidden, a text field takes the focus, or
-- the binding is removed.
abbrev pub is_closing : Event → Bool
is_closing blur = true
is_closing page_hide = true
is_closing unbind = true
is_closing (visibility_change hidden) = hidden
is_closing (focus_in target) = target.in_field
is_closing (pointer_down button id) = false
is_closing (pointer_up id) = false
is_closing (pointer_cancel id) = false
is_closing (lost_capture id) = false
is_closing (key_down event) = false
is_closing (key_up code) = false

-- The events by which a source lets go.
abbrev pub lets_go : Source → Event → Bool
lets_go source (pointer_up id) = same_source source (pointer id)
lets_go source (pointer_cancel id) = same_source source (pointer id)
lets_go source (lost_capture id) = same_source source (pointer id)
lets_go source (key_up code) = same_source source (key code)
lets_go source (pointer_down button id) = false
lets_go source (key_down event) = false
lets_go source (focus_in target) = false
lets_go source (visibility_change hidden) = false
lets_go source blur = false
lets_go source page_hide = false
lets_go source unbind = false

-- While bound, an event that closes always leaves the button released; it makes one call, an
-- immediate release, if the button was held, and none if not.
dispatch_closing :
    (page : Page) (event : Event) (b : Binding)
    → b.bound ≡ true
    → is_closing event ≡ true
    → ((dispatch page event b).0.source ≡ none)
      × ((dispatch page event b).1 ≡ (if is_held b.source then change false true ∷ [] else []))
unfolding dispatch listener release
dispatch_closing page blur b bound h = ground arith
dispatch_closing page page_hide b bound h = ground arith
dispatch_closing page unbind b bound h = ground arith
dispatch_closing page (visibility_change hidden) b bound h = ground arith
dispatch_closing page (focus_in target) b bound h = ground arith
dispatch_closing page (pointer_down button id) b bound h = cc
dispatch_closing page (pointer_up id) b bound h = cc
dispatch_closing page (pointer_cancel id) b bound h = cc
dispatch_closing page (lost_capture id) b bound h = cc
dispatch_closing page (key_down event) b bound h = cc
dispatch_closing page (key_up code) b bound h = cc

-- A source that is held keeps the binding as it is over every event but its own release and the
-- events that close: a second pointer or key neither takes over nor ends its press.
pub dispatch_kept :
    (page : Page) (event : Event) (b : Binding) (source : Source)
    → b.source ≡ some source
    → lets_go source event ≡ false
    → is_closing event ≡ false
    → (dispatch page event b).0 ≡ b
unfolding dispatch listener release press pointer_release on_key_down on_key_up
dispatch_kept page blur b source h mine closing = cc
dispatch_kept page page_hide b source h mine closing = cc
dispatch_kept page unbind b source h mine closing = cc
dispatch_kept page (visibility_change hidden) b source h mine closing = ground arith
dispatch_kept page (focus_in target) b source h mine closing = ground arith
dispatch_kept page (pointer_down button id) b source h mine closing = ground arith
dispatch_kept page (pointer_up id) b source h mine closing = ground arith
dispatch_kept page (pointer_cancel id) b source h mine closing = ground arith
dispatch_kept page (lost_capture id) b source h mine closing = ground arith
dispatch_kept page (key_down event) b source h mine closing = ground arith
dispatch_kept page (key_up code) b source h mine closing = ground arith

-- While `available()` is false a button that is not held stays so over every event.
pub dispatch_unavailable :
    (page : Page) (event : Event) (b : Binding)
    → page.available ≡ false
    → b.source ≡ none
    → (dispatch page event b).0.source ≡ none
unfolding dispatch listener release press pointer_release on_key_down on_key_up
dispatch_unavailable page blur b closed h = ground arith
dispatch_unavailable page page_hide b closed h = ground arith
dispatch_unavailable page unbind b closed h = ground arith
dispatch_unavailable page (visibility_change hidden) b closed h = ground arith
dispatch_unavailable page (focus_in target) b closed h = ground arith
dispatch_unavailable page (pointer_down button id) b closed h = ground arith
dispatch_unavailable page (pointer_up id) b closed h = ground arith
dispatch_unavailable page (pointer_cancel id) b closed h = ground arith
dispatch_unavailable page (lost_capture id) b closed h = ground arith
dispatch_unavailable page (key_down event) b closed h = ground arith
dispatch_unavailable page (key_up code) b closed h = ground arith

-- A binding that is removed and not held.
Removed : Binding → Type 0
Removed b = (b.bound ≡ false) × (b.source ≡ none)

dispatch-Removed :
    (page : Page) (event : Event) (b : Binding)
    → Removed b
    → Removed (dispatch page event b).0 × ((dispatch page event b).1 ≡ [])
unfolding dispatch listener release Removed
dispatch-Removed page unbind b h = ground arith
dispatch-Removed page blur b h = ground arith
dispatch-Removed page page_hide b h = ground arith
dispatch-Removed page (visibility_change hidden) b h = ground arith
dispatch-Removed page (focus_in target) b h = ground arith
dispatch-Removed page (pointer_down button id) b h = ground arith
dispatch-Removed page (pointer_up id) b h = ground arith
dispatch-Removed page (pointer_cancel id) b h = ground arith
dispatch-Removed page (lost_capture id) b h = ground arith
dispatch-Removed page (key_down event) b h = ground arith
dispatch-Removed page (key_up code) b h = ground arith

run-Removed : (events : List (Page × Event)) (b : Binding) → Removed b → (run events b).1 ≡ []
unfolding run
run-Removed [] b h = refl
run-Removed ((page, event) ∷ events) b h =
    let step = dispatch-Removed page event b h in
    rw step.1 (run-Removed events (dispatch page event b).0 step.0)

-- Once the returned function is called, no event makes any call.
pub run_unbound :
    (page : Page) (b : Binding) (events : List (Page × Event))
    → (run events (dispatch page unbind b).0).1 ≡ []
run_unbound page b events = run-Removed events (dispatch page unbind b).0 (unbound b)
  where
    unbound : (b : Binding) → Removed (dispatch page unbind b).0
    unbound b = unfold dispatch listener release Removed in ground arith
