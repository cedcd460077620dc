-- ===== src/Shared/PressToTalk.antt =====
-- `bindPressToTalk` of frontend/src/shared/press-to-talk.ts. The DOM's answers, such as
-- `closest(...)`, `available()` and `dialog[open]`, are read once for each event.
pub mod Balance
pub mod Release
mod Tests
use dawn_mesh_server.Prelude.{
  ℕ, Bool, true, false, ◌&&◌, ◌||◌, not, List, [], ◌∷◌, ◌++◌, Option, none, some, String, ◌==◌,
  if◌then◌else◌,
}
use dawn_mesh_server.Prelude.Maps.{◌===◌, string_eq, number_eq}

-- The texts `pointer:${pointerId}` and `key:${code}`.
pub data Source : Type 0 where
  pointer : ℕ → Source
  key : String → Source

unfoldable pub same_source : Source → Source → Bool
same_source (pointer a) (pointer b) = a == b
same_source (key a) (key b) = a === b
same_source (pointer a) (key b) = false
same_source (key a) (pointer b) = false

-- `source`, and whether the listeners are still there.
pub record Binding : Type 0 where
  pub source : Option Source
  pub bound : Bool

-- What the closest elements of an event's target are; no target is `false` throughout.
pub record Target : Type 0 where
  -- `closest('input, textarea, select, [contenteditable]:not([contenteditable="false"])')`.
  pub in_field : Bool
  -- `closest('[role="textbox"]')`.
  pub in_textbox : Bool
  -- `closest('button, a, [role="button"]')`.
  pub in_control : Bool
  pub is_button : Bool

pub record KeyDown : Type 0 where
  pub code : String
  pub repeat : Bool
  pub is_composing : Bool
  pub alt_key : Bool
  pub ctrl_key : Bool
  pub meta_key : Bool
  pub target : Target

pub data Event : Type 0 where
  pointer_down : (button id : ℕ) → Event
  pointer_up pointer_cancel lost_capture : (id : ℕ) → Event
  key_down : KeyDown → Event
  key_up : (code : String) → Event
  focus_in : Target → Event
  visibility_change : (hidden : Bool) → Event
  blur page_hide unbind : Event

pub record Page : Type 0 where
  pub available : Bool
  pub dialog_open : Bool

-- The calls that a listener makes; `change false immediate` is a release.
pub data Effect : Type 0 where
  prevent_default unlock : Effect
  capture : (id : ℕ) → Effect
  change : (pressed immediate : Bool) → Effect

abbrev pub is_held : Option Source → Bool
is_held none = false
is_held (some source) = true

abbrev pub is_source : Option Source → Source → Bool
is_source none next = false
is_source (some source) next = same_source source next

unfoldable pub release : Bool → Binding → Binding × List Effect
release immediate b =
    if is_held b.source then (record b { source = none }, change false immediate ∷ []) else (b, [])

unfoldable pub press : Page → Source → Binding → Binding × List Effect
press page next b =
    if is_held b.source || not page.available
    then (b, [])
    else (record b { source = some next }, unlock ∷ change true false ∷ [])

abbrev pub after : List Effect → Binding × List Effect → Binding × List Effect
after first (b, effects) = (b, first ++ effects)

-- `pointerRelease`.
unfoldable pub pointer_release : ℕ → Bool → Binding → Binding × List Effect
pointer_release id immediate b =
    if is_source b.source (pointer id) then release immediate b else (b, [])

-- Whether a key that is pressed is left to the page.
unfoldable pub is_ignored : Page → KeyDown → Bool
is_ignored page event =
    event.is_composing
    || event.alt_key
    || event.ctrl_key
    || event.meta_key
    || page.dialog_open
    || event.target.in_field
    || event.target.in_textbox
    || (event.target.in_control && not event.target.is_button)
    || (not (event.code === "Space") && not (event.code === "Enter" && event.target.is_button))
    || not page.available

unfoldable pub on_key_down : Page → KeyDown → Binding → Binding × List Effect
on_key_down page event b =
    if event.repeat
    then (b, (if is_source b.source (key event.code) then prevent_default ∷ [] else []))
    else if is_ignored page event
    then (b, [])
    else after (prevent_default ∷ []) (press page (key event.code) b)

unfoldable pub on_key_up : String → Binding → Binding × List Effect
on_key_up code b =
    if is_source b.source (key code)
    then after (prevent_default ∷ []) (release false b)
    else (b, [])

-- The listener of each event.
unfoldable pub listener : Page → Event → Binding → Binding × List Effect
listener page (pointer_down button id) b =
    if button == 0
    then after (prevent_default ∷ capture id ∷ []) (press page (pointer id) b)
    else (b, [])
listener page (pointer_up id) b = pointer_release id false b
listener page (pointer_cancel id) b = pointer_release id true b
listener page (lost_capture id) b = pointer_release id true b
listener page (key_down event) b = on_key_down page event b
listener page (key_up code) b = on_key_up code b
listener page (focus_in target) b = if target.in_field then release true b else (b, [])
listener page (visibility_change hidden) b = if hidden then release true b else (b, [])
listener page blur b = release true b
listener page page_hide b = release true b
listener page unbind b =
    let released = release true b in (record released.0 { bound = false }, released.1)

-- An event reaches its listener while `controller` is not aborted; the returned function, `unbind`,
-- may be called again.
unfoldable pub dispatch : Page → Event → Binding → Binding × List Effect
dispatch page unbind b = listener page unbind b
dispatch page event b = if b.bound then listener page event b else (b, [])

unfoldable pub run : List (Page × Event) → Binding → Binding × List Effect
run [] b = (b, [])
run ((page, event) ∷ events) b =
    let first = dispatch page event b in after first.1 (run events first.0)

abbrev pub bind_press_to_talk : Binding
bind_press_to_talk = record { source = none; bound = true }
