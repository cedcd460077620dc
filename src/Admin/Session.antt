-- ===== src/Admin/Session.antt =====
-- The sign-in of frontend/src/admin/app.ts: `loadOverview` up to its request and from its answer on,
-- `startRefresh`, and the listeners of the sign-in form, the buttons, the timer and the page.
pub mod Views
mod Tests
use dawn_mesh_server.Prelude.{
  ℕ, Bool, true, false, ◌&&◌, ◌||◌, not, List, [], ◌∷◌, Option, none, some, String, if◌then◌else◌,
  ◌==◌,
}
use dawn_mesh_server.Crypto.Base64.{Text}
use dawn_mesh_server.Client.Presence.{trim_start, trim_end}

pub data Connection : Type 0 where
  unknown_state online offline : Connection

-- What awaits the overview: the sign-in and the start of the page then start the refresh.
pub data Caller : Type 0 where
  by_login by_start by_other : Caller

-- `stored` is the item of `sessionStorage`, and `loading` is that there is a `caller`. The server's
-- data that is shown is left out.
pub record Session : Type 0 where
  pub admin_token : Text
  pub stored : Option Text
  pub caller : Option Caller
  pub refresh_timer : Bool
  pub connection : Connection
  pub login_shown : Bool
  pub dashboard_shown : Bool
  pub login_error : String
  pub notice : String
  pub token_input : Text

-- A failure without a status has status 0.
pub data Answer : Type 0 where
  loaded : Answer
  load_fails : (status : ℕ) (message : String) → Answer

abbrev pub is_empty : Text → Bool
is_empty [] = true
is_empty (c ∷ text) = false

abbrev pub is_loading : Option Caller → Bool
is_loading none = false
is_loading (some caller) = true

-- `window.clearInterval`, then a new timer.
unfoldable pub start_refresh : Session → Session
start_refresh s = record s { refresh_timer = true }

-- What a caller does once `loadOverview` has resolved.
unfoldable pub after_overview : Caller → Session → Session
unfolding start_refresh
after_overview by_login s = start_refresh (record s { token_input = [] })
after_overview by_start s = start_refresh s
after_overview by_other s = s

-- `loadOverview` up to its request; without one it resolves at once.
unfoldable pub load_overview : Caller → Session → Session
load_overview caller s =
    if is_empty s.admin_token || is_loading s.caller
    then after_overview caller s
    else record s { caller = some caller; connection = unknown_state }

-- The statuses that lead back to the sign-in.
abbrev pub is_refusal : ℕ → Bool
is_refusal status = status == 401 || status == 429 || status == 503

abbrev pub or_forget : ℕ → Option Text → Option Text
or_forget status stored = if status == 401 then none else stored

-- `loadOverview` from its answer on.
unfoldable pub on_overview : Answer → Session → Session
on_overview loaded s = record s {
  connection = online;
  login_shown = false;
  dashboard_shown = true;
  login_error = "";
  caller = none;
}
on_overview (load_fails status text) s =
    let failed = record s { connection = offline; caller = none } in
    if is_refusal status
    then record failed {
      dashboard_shown = false;
      login_shown = true;
      login_error = text;
      stored = or_forget status s.stored;
    }
    else record failed { notice = text }

abbrev pub after_answer : Answer → Option Caller → Session → Session
after_answer loaded (some caller) s = after_overview caller s
after_answer _ _ s = s

-- The answer, and what the caller does then: a failure it leaves alone.
unfoldable pub on_answer : Answer → Session → Session
on_answer answer s =
    if is_loading s.caller then after_answer answer s.caller (on_overview answer s) else s

-- `submit` of the sign-in form.
unfoldable pub on_submit : Text → Session → Session
on_submit input s =
    let token = trim_end (trim_start input) in
    let entered = record s { token_input = input; admin_token = token } in
    if is_empty token
    then entered
    else load_overview by_login (record entered { login_error = ""; stored = some token })

-- `click` of the sign-out, once the listening has stopped.
unfoldable pub on_logout : Session → Session
on_logout s = record s {
  stored = none;
  admin_token = [];
  refresh_timer = false;
  dashboard_shown = false;
  login_shown = true;
}

abbrev pub or_empty : Option Text → Text
or_empty none = []
or_empty (some text) = text

abbrev pub stored_session : Option Text → Session
stored_session stored = record {
  admin_token = or_empty stored;
  stored = stored;
  caller = none;
  refresh_timer = false;
  connection = unknown_state;
  login_shown = true;
  dashboard_shown = false;
  login_error = "";
  notice = "";
  token_input = [];
}

-- The page begins with what was stored.
unfoldable pub new_session : Option Text → Session
new_session stored =
    if is_empty (or_empty stored)
    then stored_session stored
    else load_overview by_start (stored_session stored)

pub data Action : Type 0 where
  submit : (input : Text) → Action
  logout refresh : Action
  answers : Answer → Action
  timer visibility : (document_hidden : Bool) → Action

unfoldable pub act : Action → Session → Session
act (submit input) s = on_submit input s
act logout s = on_logout s
act refresh s = load_overview by_other s
act (answers answer) s = on_answer answer s
act (timer document_hidden) s =
    if s.refresh_timer && not document_hidden then load_overview by_other s else s
act (visibility document_hidden) s =
    if document_hidden || is_empty s.admin_token then s else load_overview by_other s

unfoldable pub run : List Action → Session → Session
run [] s = s
run (action ∷ actions) s = run actions (act action s)
