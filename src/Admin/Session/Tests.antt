-- ===== src/Admin/Session/Tests.antt =====
-- A sign-in, a sign-out, and the theorems at inputs.
use dawn_mesh_server.Prelude.{◌≡◌, refl, true, false, List, [], ◌∷◌, none}
use dawn_mesh_server.Crypto.Hex.{is_space}
use dawn_mesh_server.Client.Presence.{trim_start, trim_end}
use dawn_mesh_server.Admin.Session.{
  Action, submit, logout, answers, timer, visibility, loaded, act, run, new_session, stored_session,
  load_overview, after_overview, start_refresh, on_submit, on_overview, on_answer, on_logout,
}
use dawn_mesh_server.Admin.Session.Views.{
  is_consistent, run_consistent, is_signed_out, run_signed_out,
}

abbrev signs_in : List Action
signs_in = submit (32 ∷ 116 ∷ []) ∷ answers loaded ∷ timer false ∷ []

run_consistent_example : is_consistent (run signs_in (new_session none)) ≡ true
run_consistent_example = run_consistent none signs_in

run_signed_out_example :
    is_signed_out (run (logout ∷ timer false ∷ visibility false ∷ []) (stored_session none)) ≡ true
run_signed_out_example =
    run_signed_out (timer false ∷ visibility false ∷ []) (stored_session none) refl refl

-- The overview that the timer asked for comes after the sign-out: the dashboard is shown again.
shown_again :
    (run (logout ∷ answers loaded ∷ []) (run signs_in (new_session none))).dashboard_shown ≡ true
unfolding run act new_session load_overview after_overview start_refresh on_submit on_overview
    on_answer on_logout is_space trim_start trim_end
shown_again = refl
