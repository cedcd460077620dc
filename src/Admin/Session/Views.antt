-- ===== src/Admin/Session/Views.antt =====
-- What the administration page shows and keeps of its credentials, over any events.
use dawn_mesh_server.Prelude.{
  ◌≡◌, refl, arith, Bool, true, false, ◌&&◌, ◌||◌, not, List, [], ◌∷◌, Option, none, some,
  if◌then◌else◌,
}
use dawn_mesh_server.Prelude.Maps.{◌===◌, codes_eq, ===_refl}
use dawn_mesh_server.Crypto.Base64.{Text}
use dawn_mesh_server.Client.Presence.{trim_start, trim_end}
use dawn_mesh_server.Admin.Session.{
  Session, is_empty, is_loading, start_refresh, after_overview, load_overview, on_overview,
  on_answer, on_submit, on_logout, or_empty, new_session, Action, submit, logout, refresh, answers,
  timer, visibility, act, run,
}

abbrev pub is_current : Option Text → Text → Bool
is_current none token = true
is_current (some text) token = text === token

abbrev differ : Bool → Bool → Bool
differ a b = if a then not b else b

-- One of the two views is shown, and what is stored is the token in use, if one is.
pub is_consistent : Session → Bool
is_consistent s =
    differ s.login_shown s.dashboard_shown
    && (is_empty s.admin_token || is_current s.stored s.admin_token)

act_consistent :
    (action : Action) (s : Session) → is_consistent s ≡ true → is_consistent (act action s) ≡ true
unfolding is_consistent act on_submit on_logout on_answer on_overview load_overview after_overview
    start_refresh
act_consistent (submit input) s h =
    let token = trim_end (trim_start input) in ground (arith, ===_refl token)
act_consistent logout s h = ground arith
act_consistent refresh s h = ground arith
act_consistent (answers answer) s h = ground arith
act_consistent (timer document_hidden) s h = ground arith
act_consistent (visibility document_hidden) s h = ground arith

run_consistent_from :
    (actions : List Action) (s : Session)
    → is_consistent s ≡ true
    → is_consistent (run actions s) ≡ true
unfolding run
run_consistent_from [] s h = h
run_consistent_from (action ∷ actions) s h =
    run_consistent_from actions (act action s) (act_consistent action s h)

new_consistent : (stored : Option Text) → is_consistent (new_session stored) ≡ true
unfolding is_consistent new_session load_overview after_overview start_refresh
new_consistent none = refl
new_consistent (some text) = ground (arith, ===_refl text)

-- From any stored token on, over any events in any order, either the sign-in or the dashboard is
-- shown, never both or neither; and while there is a token in use, what is stored is that token or
-- nothing.
pub run_consistent :
    (stored : Option Text) (actions : List Action)
    → is_consistent (run actions (new_session stored)) ≡ true
run_consistent stored actions =
    run_consistent_from actions (new_session stored) (new_consistent stored)

abbrev pub is_submit : Action → Bool
is_submit (submit input) = true
is_submit _ = false

abbrev pub any_submit : List Action → Bool
any_submit [] = false
any_submit (action ∷ actions) = is_submit action || any_submit actions

-- Signed out: no token, no timer, no request, and the dashboard hidden.
pub is_signed_out : Session → Bool
is_signed_out s =
    is_empty s.admin_token
    && is_empty (or_empty s.stored)
    && not s.refresh_timer
    && not (is_loading s.caller)
    && not s.dashboard_shown

act_signed_out :
    (action : Action) (s : Session)
    → is_submit action ≡ false
    → is_signed_out s ≡ true
    → is_signed_out (act action s) ≡ true
unfolding is_signed_out act on_submit on_logout on_answer load_overview after_overview
act_signed_out (submit input) s not_submit h = cc
act_signed_out logout s not_submit h = ground arith
act_signed_out refresh s not_submit h = ground arith
act_signed_out (answers answer) s not_submit h = ground arith
act_signed_out (timer document_hidden) s not_submit h = ground arith
act_signed_out (visibility document_hidden) s not_submit h = ground arith

run_signed_out_from :
    (actions : List Action) (s : Session)
    → any_submit actions ≡ false
    → is_signed_out s ≡ true
    → is_signed_out (run actions s) ≡ true
unfolding run
run_signed_out_from [] s none_submits h = h
run_signed_out_from (action ∷ actions) s none_submits h =
    let parts = neither (is_submit action) (any_submit actions) none_submits in
    run_signed_out_from actions (act action s) parts.1 (act_signed_out action s parts.0 h)
  where
    neither : (a b : Bool) → (a || b) ≡ false → (a ≡ false) × (b ≡ false)
    neither a b h = ground arith

-- After a sign-out while no overview is being loaded, nothing but a new sign-in shows the dashboard
-- again, sends a request or starts the timer, and no token is left.
pub run_signed_out :
    (actions : List Action) (s : Session)
    → is_loading s.caller ≡ false
    → any_submit actions ≡ false
    → is_signed_out (run (logout ∷ actions) s) ≡ true
unfolding run act on_logout is_signed_out
run_signed_out actions s not_loading none_submits =
    run_signed_out_from actions (on_logout s) none_submits (rw not_loading refl)
