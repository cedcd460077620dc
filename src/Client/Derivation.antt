-- ===== src/Client/Derivation.antt =====
-- The worker that derives credentials: `deriveInviteCredentials` of
-- frontend/src/client/invite-kdf.ts and the listener of frontend/src/client/invite-worker.ts. What
-- the worker, the timer, the signal and the page do are steps.
pub mod Settling
mod Tests
use dawn_mesh_server.Prelude.{
  Bool, true, false, List, [], ◌∷◌, Option, none, some, String, if◌then◌else◌, Result, ok, err,
  Failure, failure,
}
use dawn_mesh_server.Prelude.Maps.{◌===◌, string_eq}
use dawn_mesh_server.Crypto.Bytes.{Bytes}
use dawn_mesh_server.Crypto.Base64.{Text}
use dawn_mesh_server.Crypto.Platform.{Subtle}
use dawn_mesh_server.Crypto.Scrypt.{Credentials, internet_invite_credentials}

-- What the worker posts: `keys`, `error`, or neither.
pub record Reply : Type 0 where
  pub keys : Option Credentials
  pub error : Option String

-- The promise with what it holds: it is settled once, by the first call of `finish`.
pub record Derivation : Type 0 where
  pub settled : Option (Result Credentials)
  pub timer : Bool
  pub abort_listener : Bool
  pub pagehide_listener : Bool
  pub worker : Bool

abbrev pub cancelled : Failure
cancelled = record { name = "AbortError"; message = "Cancelled"; status = none }

abbrev pub or_settled : Option (Result Credentials) → Result Credentials → Result Credentials
or_settled none outcome = outcome
or_settled (some first) outcome = first

unfoldable pub finish : Result Credentials → Derivation → Derivation
finish outcome d = record {
  settled = some (or_settled d.settled outcome);
  timer = false;
  abort_listener = false;
  pagehide_listener = false;
  worker = false;
}

abbrev pub or_invalid : Option String → Failure
or_invalid none = failure "Invalid key derivation result"
or_invalid (some message) =
    failure (if message === "" then "Invalid key derivation result" else message)

abbrev pub is_written : Option String → Bool
is_written none = false
is_written (some message) = if message === "" then false else true

-- What `onmessage` settles for: an error, also an empty one without keys.
unfoldable pub outcome_of : Reply → Result Credentials
outcome_of reply = elim reply.keys [
  | none ↦ err (or_invalid reply.error)
  | some keys ↦ if is_written reply.error then err (or_invalid reply.error) else ok keys
]

-- `postMessage` may throw.
abbrev pub post : Option Failure → Derivation → Derivation
post none d = d
post (some failed) d = finish (err failed) d

-- With `aborted` of the signal, if there is one, and the failure of `postMessage`, if it fails.
unfoldable pub derive_invite_credentials : Option Bool → Option Failure → Derivation
unfolding finish
derive_invite_credentials (some true) posting = record {
  settled = some (err cancelled);
  timer = false;
  abort_listener = false;
  pagehide_listener = false;
  worker = false;
}
derive_invite_credentials (some false) posting = post posting (record {
  settled = none;
  timer = true;
  abort_listener = true;
  pagehide_listener = true;
  worker = true;
})
derive_invite_credentials none posting = post posting (record {
  settled = none;
  timer = true;
  abort_listener = false;
  pagehide_listener = true;
  worker = true;
})

pub data Action : Type 0 where
  replies : Reply → Action
  worker_fails undecodable times_out aborts page_hides : Action

-- A listener is called only while it is there, and a worker posts until it is terminated.
unfoldable pub act : Action → Derivation → Derivation
act (replies reply) d = if d.worker then finish (outcome_of reply) d else d
act worker_fails d = if d.worker then finish (err (failure "Key derivation worker failed")) d else d
act undecodable d =
    if d.worker then finish (err (failure "Key derivation response could not be decoded")) d else d
act times_out d = if d.timer then finish (err (failure "Key derivation timed out")) d else d
act aborts d = if d.abort_listener then finish (err cancelled) d else d
act page_hides d = if d.pagehide_listener then finish (err cancelled) d else d

unfoldable pub run : List Action → Derivation → Derivation
run [] d = d
run (action ∷ actions) d = run actions (act action d)

-- The worker's `onmessage`: the keys, or the message of what was thrown.
abbrev pub reply_of : Result Credentials → Reply
reply_of (ok keys) = record { keys = some keys; error = none }
reply_of (err failed) = record { keys = none; error = some failed.message }

unfoldable pub on_request : Subtle → Text → Bytes → Reply
on_request subtle code salt = reply_of (internet_invite_credentials subtle code salt)
