-- ===== src/Shared/PressToTalk/Balance.antt =====
-- Presses and releases of frontend/src/shared/press-to-talk.ts alternate.
use dawn_mesh_server.Prelude.{
  ℕ, ◌≡◌, refl, ◌∙◌, arith, Bool, true, false, List, [], ◌∷◌, ◌++◌, Option, none, some,
  if◌then◌else◌, ◌==◌, Bool-cases, inl, inr, String,
}
use dawn_mesh_server.Shared.PressToTalk.{
  Source, Binding, KeyDown, Event, Page, Effect, is_held, is_source, is_ignored, release, press,
  pointer_release, on_key_down, on_key_up, listener, dispatch, run, after, Source.pointer,
  Source.key, Event.pointer_down, Event.pointer_up, Event.pointer_cancel, Event.lost_capture,
  Event.key_down, Event.key_up, Event.focus_in, Event.visibility_change, Event.blur,
  Event.page_hide, Event.unbind, Effect.prevent_default, Effect.unlock, Effect.capture,
  Effect.change,
}

-- Whether the button is held after some effects, or `none` where it is pressed while held or
-- released while not.
abbrev pub held_after : Bool → List Effect → Option Bool
held_after held [] = some held
held_after false (change true immediate ∷ effects) = held_after true effects
held_after true (change false immediate ∷ effects) = held_after false effects
held_after true (change true immediate ∷ effects) = none
held_after false (change false immediate ∷ effects) = none
held_after held (prevent_default ∷ effects) = held_after held effects
held_after held (unlock ∷ effects) = held_after held effects
held_after held (capture id ∷ effects) = held_after held effects

-- The effects lead from what was held to what is held now.
abbrev IsBalanced : Binding → Binding × List Effect → Type 0
IsBalanced b (b', effects) = held_after (is_held b.source) effects ≡ some (is_held b'.source)

held_after-append :
    (held : Bool) (first second : List Effect) {middle : Bool}
    → held_after held first ≡ some middle
    → held_after held (first ++ second) ≡ held_after middle second
held_after-append held [] second h = ground arith
held_after-append true (change true i ∷ first) second h = cc
held_after-append false (change false i ∷ first) second h = cc
held_after-append true (change false i ∷ first) second h = held_after-append false first second h
held_after-append false (change true i ∷ first) second h = held_after-append true first second h
held_after-append true (prevent_default ∷ first) second h = held_after-append true first second h
held_after-append false (prevent_default ∷ first) second h = held_after-append false first second h
held_after-append true (unlock ∷ first) second h = held_after-append true first second h
held_after-append false (unlock ∷ first) second h = held_after-append false first second h
held_after-append true (capture id ∷ first) second h = held_after-append true first second h
held_after-append false (capture id ∷ first) second h = held_after-append false first second h

release-IsBalanced : (immediate : Bool) (b : Binding) → IsBalanced b (release immediate b)
unfolding release
release-IsBalanced immediate b = ground arith

press-IsBalanced : (page : Page) (next : Source) (b : Binding) → IsBalanced b (press page next b)
unfolding press
press-IsBalanced page next b = ground arith

pointer_release-IsBalanced :
    (id : ℕ) (immediate : Bool) (b : Binding) → IsBalanced b (pointer_release id immediate b)
unfolding pointer_release
pointer_release-IsBalanced id immediate b = elim (Bool-cases (is_source b.source (pointer id))) [
  | inl mine ↦ rw mine (release-IsBalanced immediate b)
  | inr other ↦ rw other refl
]

-- Effects that neither press nor release may come first.
prevented-IsBalanced :
    (b : Binding) (r : Binding × List Effect)
    → IsBalanced b r
    → IsBalanced b (after (prevent_default ∷ []) r)
prevented-IsBalanced b (b', effects) h =
    held_after-append (is_held b.source) (prevent_default ∷ []) effects (quiet (is_held b.source))
    ∙ h
  where
    quiet : (held : Bool) → held_after held (prevent_default ∷ []) ≡ some held
    quiet true = refl
    quiet false = refl

captured-IsBalanced :
    (b : Binding) (id : ℕ) (r : Binding × List Effect)
    → IsBalanced b r
    → IsBalanced b (after (prevent_default ∷ capture id ∷ []) r)
captured-IsBalanced b id (b', effects) h =
    held_after-append (is_held b.source) (prevent_default ∷ capture id ∷ []) effects
      (quiet (is_held b.source))
    ∙ h
  where
    quiet : (held : Bool) → held_after held (prevent_default ∷ capture id ∷ []) ≡ some held
    quiet true = refl
    quiet false = refl

on_key_down-IsBalanced :
    (page : Page) (event : KeyDown) (b : Binding) → IsBalanced b (on_key_down page event b)
unfolding on_key_down
on_key_down-IsBalanced page event b = elim (Bool-cases event.repeat) [
  | inl again ↦ rw again (ground arith)
  | inr first ↦ elim (Bool-cases (is_ignored page event)) [
    | inl ignored ↦ rw (ignored, first) refl
    | inr taken ↦
        rw (taken, first)
          (prevented-IsBalanced b (press page (key event.code) b)
            (press-IsBalanced page (key event.code) b))
  ]
]

on_key_up-IsBalanced : (code : String) (b : Binding) → IsBalanced b (on_key_up code b)
unfolding on_key_up
on_key_up-IsBalanced code b = elim (Bool-cases (is_source b.source (key code))) [
  | inl mine ↦ rw mine (prevented-IsBalanced b (release false b) (release-IsBalanced false b))
  | inr other ↦ rw other refl
]

if-IsBalanced :
    (test : Bool) (b : Binding) (r : Binding × List Effect)
    → IsBalanced b r
    → IsBalanced b (if test then r else (b, []))
if-IsBalanced true b r h = h
if-IsBalanced false b r h = refl

listener-IsBalanced :
    (page : Page) (event : Event) (b : Binding) → IsBalanced b (listener page event b)
unfolding listener
listener-IsBalanced page (pointer_down button id) b =
    if-IsBalanced (button == 0) b
      (after (prevent_default ∷ capture id ∷ []) (press page (pointer id) b))
      (captured-IsBalanced b id (press page (pointer id) b) (press-IsBalanced page (pointer id) b))
listener-IsBalanced page (pointer_up id) b = pointer_release-IsBalanced id false b
listener-IsBalanced page (pointer_cancel id) b = pointer_release-IsBalanced id true b
listener-IsBalanced page (lost_capture id) b = pointer_release-IsBalanced id true b
listener-IsBalanced page (key_down event) b = on_key_down-IsBalanced page event b
listener-IsBalanced page (key_up code) b = on_key_up-IsBalanced code b
listener-IsBalanced page (focus_in target) b =
    if-IsBalanced target.in_field b (release true b) (release-IsBalanced true b)
listener-IsBalanced page (visibility_change hidden) b =
    if-IsBalanced hidden b (release true b) (release-IsBalanced true b)
listener-IsBalanced page blur b = release-IsBalanced true b
listener-IsBalanced page page_hide b = release-IsBalanced true b
listener-IsBalanced page unbind b = release-IsBalanced true b

dispatch-IsBalanced :
    (page : Page) (event : Event) (b : Binding) → IsBalanced b (dispatch page event b)
unfolding dispatch
dispatch-IsBalanced page unbind b = listener-IsBalanced page unbind b
dispatch-IsBalanced page (pointer_down button id) b =
    if-IsBalanced b.bound b (listener page (pointer_down button id) b)
      (listener-IsBalanced page (pointer_down button id) b)
dispatch-IsBalanced page (pointer_up id) b =
    if-IsBalanced b.bound b (listener page (pointer_up id) b)
      (listener-IsBalanced page (pointer_up id) b)
dispatch-IsBalanced page (pointer_cancel id) b =
    if-IsBalanced b.bound b (listener page (pointer_cancel id) b)
      (listener-IsBalanced page (pointer_cancel id) b)
dispatch-IsBalanced page (lost_capture id) b =
    if-IsBalanced b.bound b (listener page (lost_capture id) b)
      (listener-IsBalanced page (lost_capture id) b)
dispatch-IsBalanced page (key_down event) b =
    if-IsBalanced b.bound b (listener page (key_down event) b)
      (listener-IsBalanced page (key_down event) b)
dispatch-IsBalanced page (key_up code) b =
    if-IsBalanced b.bound b (listener page (key_up code) b)
      (listener-IsBalanced page (key_up code) b)
dispatch-IsBalanced page (focus_in target) b =
    if-IsBalanced b.bound b (listener page (focus_in target) b)
      (listener-IsBalanced page (focus_in target) b)
dispatch-IsBalanced page (visibility_change hidden) b =
    if-IsBalanced b.bound b (listener page (visibility_change hidden) b)
      (listener-IsBalanced page (visibility_change hidden) b)
dispatch-IsBalanced page blur b =
    if-IsBalanced b.bound b (listener page blur b) (listener-IsBalanced page blur b)
dispatch-IsBalanced page page_hide b =
    if-IsBalanced b.bound b (listener page page_hide b) (listener-IsBalanced page page_hide b)

-- Over any events, from any binding, presses and releases alternate: the button is never pressed
-- while held nor released while not, and it is held at the end exactly if a source is.
pub run_balanced :
    (events : List (Page × Event)) (b : Binding)
    → held_after (is_held b.source) (run events b).1 ≡ some (is_held (run events b).0.source)
unfolding run
run_balanced [] b = ground arith
run_balanced ((page, event) ∷ events) b =
    let first = dispatch page event b in
    held_after-append (is_held b.source) first.1 (run events first.0).1
      (dispatch-IsBalanced page event b)
    ∙ run_balanced events first.0
