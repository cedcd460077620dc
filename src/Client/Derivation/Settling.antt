-- ===== src/Client/Derivation/Settling.antt =====
-- That a derivation of frontend/src/client/invite-kdf.ts answers once and holds nothing afterwards.
use dawn_mesh_server.Prelude.{
  ◌≡◌, refl, arith, Bool, true, false, ◌&&◌, ◌||◌, not, List, [], ◌∷◌, ◌++◌, Option, none, some,
  if◌then◌else◌, ok, Failure,
}
use dawn_mesh_server.Crypto.Bytes.{Bytes}
use dawn_mesh_server.Crypto.Base64.{Text}
use dawn_mesh_server.Crypto.Platform.{Subtle}
use dawn_mesh_server.Crypto.Scrypt.{Credentials, internet_invite_credentials}
use dawn_mesh_server.Client.Derivation.{
  Reply, Derivation, finish, outcome_of, derive_invite_credentials, Action, replies, worker_fails,
  undecodable, times_out, aborts, page_hides, act, run, on_request,
}

abbrev is_some {ℓ} : {A : Type ℓ} → Option A → Bool
is_some none = false
is_some (some a) = true

-- Not settled, with its timer and worker and listening for the page's end; or settled, with nothing.
pub is_whole : Derivation → Bool
is_whole d =
    if is_some d.settled
    then not (d.timer || d.abort_listener || d.pagehide_listener || d.worker)
    else d.timer && d.pagehide_listener && d.worker

act_whole : (action : Action) (d : Derivation) → is_whole d ≡ true → is_whole (act action d) ≡ true
unfolding is_whole act finish
act_whole (replies reply) d h = ground arith
act_whole worker_fails d h = ground arith
act_whole undecodable d h = ground arith
act_whole times_out d h = ground arith
act_whole aborts d h = ground arith
act_whole page_hides d h = ground arith

derive_whole :
    (aborted : Option Bool) (posting : Option Failure)
    → is_whole (derive_invite_credentials aborted posting) ≡ true
unfolding is_whole derive_invite_credentials finish
derive_whole none none = refl
derive_whole none (some failed) = refl
derive_whole (some true) posting = refl
derive_whole (some false) none = refl
derive_whole (some false) (some failed) = refl

run_whole_from :
    (actions : List Action) (d : Derivation) → is_whole d ≡ true → is_whole (run actions d) ≡ true
unfolding run
run_whole_from [] d h = h
run_whole_from (action ∷ actions) d h = run_whole_from actions (act action d) (act_whole action d h)

idle : (b : Bool) (next d : Derivation) → b ≡ false → (if b then next else d) ≡ d
idle true next d h = cc
idle false next d h = refl

-- Nothing that a settled derivation listened to is left.
nothing_left :
    (d : Derivation)
    → is_whole d ≡ true
    → is_some d.settled ≡ true
    → (d.timer ≡ false)
      × (d.abort_listener ≡ false)
      × (d.pagehide_listener ≡ false)
      × (d.worker ≡ false)
unfolding is_whole
nothing_left d h s = ground arith

act_stays :
    (action : Action) (d : Derivation)
    → is_whole d ≡ true
    → is_some d.settled ≡ true
    → act action d ≡ d
unfolding act
act_stays (replies reply) d h s =
    idle d.worker (finish (outcome_of reply) d) d (nothing_left d h s).3
act_stays worker_fails d h s = idle d.worker _ d (nothing_left d h s).3
act_stays undecodable d h s = idle d.worker _ d (nothing_left d h s).3
act_stays times_out d h s = idle d.timer _ d (nothing_left d h s).0
act_stays aborts d h s = idle d.abort_listener _ d (nothing_left d h s).1
act_stays page_hides d h s = idle d.pagehide_listener _ d (nothing_left d h s).2

-- Once settled, a derivation stays as it is.
run_stays :
    (actions : List Action) (d : Derivation)
    → is_whole d ≡ true
    → is_some d.settled ≡ true
    → run actions d ≡ d
unfolding run
run_stays [] d h s = refl
run_stays (action ∷ actions) d h s = rw (act_stays action d h s) (run_stays actions d h s)

run-append :
    (actions later : List Action) (d : Derivation)
    → run (actions ++ later) d ≡ run later (run actions d)
unfolding run
run-append [] later d = refl
run-append (action ∷ actions) later d = run-append actions later (act action d)

reply_answers :
    (reply : Reply) (keys : Credentials) (d : Derivation)
    → outcome_of reply ≡ ok keys
    → is_whole d ≡ true
    → d.settled ≡ none
    → (act (replies reply) d).settled ≡ some (ok keys)
unfolding act finish is_whole
reply_answers reply keys d given whole unsettled = ground arith

outcome_of_request :
    (subtle : Subtle) (code : Text) (salt : Bytes) (keys : Credentials)
    → internet_invite_credentials subtle code salt ≡ ok keys
    → outcome_of (on_request subtle code salt) ≡ ok keys
unfolding outcome_of on_request
outcome_of_request subtle code salt keys derived = rw derived refl

-- Whatever the worker, the timer, the signal and the page do, in any order: a derivation that is not
-- settled has its timer, its worker and the listener for the end of the page, and a settled one has
-- no timer, worker or listener left.
pub run_whole :
    (aborted : Option Bool) (posting : Option Failure) (actions : List Action)
    → is_whole (run actions (derive_invite_credentials aborted posting)) ≡ true
run_whole aborted posting actions =
    run_whole_from actions (derive_invite_credentials aborted posting)
      (derive_whole aborted posting)

-- What the worker derives is the answer, if its reply comes before anything else settles the
-- derivation, and stays so whatever happens later.
pub reply_stands :
    (subtle : Subtle) (code : Text) (salt : Bytes) (keys : Credentials) (aborted : Option Bool)
    (posting : Option Failure) (before later : List Action)
    → internet_invite_credentials subtle code salt ≡ ok keys
    → (run before (derive_invite_credentials aborted posting)).settled ≡ none
    → (run
        (before ++ (replies (on_request subtle code salt) ∷ later))
        (derive_invite_credentials aborted posting)).settled
      ≡ some (ok keys)
unfolding run
reply_stands subtle code salt keys aborted posting before later derived unsettled =
    let d = run before (derive_invite_credentials aborted posting) in
    let reply = replies (on_request subtle code salt) in
    let whole = run_whole aborted posting before in
    let answered =
      reply_answers (on_request subtle code salt) keys d
        (outcome_of_request subtle code salt keys derived) whole unsettled in
    let stays = run_stays later (act reply d) (act_whole reply d whole) (rw answered refl) in
    rw (run-append before (reply ∷ later) (derive_invite_credentials aborted posting), stays)
      answered
