-- ===== src/Client/Channel.antt =====
-- The management channel over HTTP: `openHTTPEventChannel` of frontend/src/client/app.ts, with its
-- methods, its stream loop and the answers of its requests as steps. A step gives the channel after
-- it and the events that it dispatches.
pub mod Framing
pub mod Closing
pub mod Opening
mod Tests
use dawn_mesh_server.Prelude.{
  ℕ, ◌+◌, ◌-◌, Bool, true, false, ◌&&◌, ◌||◌, not, List, [], ◌∷◌, ◌++◌, Option, none, some, String,
  if◌then◌else◌, ◌==◌, Result, ok, err, Failure, failure,
}
use dawn_mesh_server.Prelude.Maps.{◌===◌, string_eq}
use dawn_mesh_server.Crypto.Bytes.{Bytes}
use dawn_mesh_server.Crypto.Base64.{Text}
use dawn_mesh_server.Client.Presence.{trim_start, trim_end}

-- `TextDecoder`, with what it keeps of a character that is cut: `decode(value, { stream: true })`,
-- and `decode()` at the end.
pub record TextDecoder : Type 1 where
  pub Rest : Type 0
  pub new_rest : Rest
  pub decode : Rest → Bytes → Rest × Text
  pub flush : Rest → Text

pub data ReadyState : Type 0 where
  is_connecting is_open is_closing is_closed : ReadyState

-- `message` carries a line; `send_error` is the `message` that tells of a send that failed, and
-- `error` carries its cause as the `detail`.
pub data Event : Type 0 where
  opened closed : Event
  message : Text → Event
  send_error error : Failure → Event

-- The function that reads the stream: it awaits the response, or a chunk with the text that is
-- `pending`, or has come to its end.
pub data Reader (Rest : Type 0) : Type 0 where
  awaits_response reader_ended : Reader Rest
  awaits_chunk : (rest : Rest) (pending : Text) → Reader Rest

-- `aborted` is the signal of `controller`; `sends` counts the requests of `send` without an answer.
pub record Channel (Rest : Type 0) : Type 0 where
  pub ready_state : ReadyState
  pub intentional : Bool
  pub finished : Bool
  pub aborted : Bool
  pub sends : ℕ
  pub reader : Reader Rest

-- The response of `fetch`, or its failure.
pub data Response : Type 0 where
  fetch_fails : Failure → Response
  refused : (status : ℕ) (error : String) → Response
  without_body with_body : Response

-- A separator ends a piece, and another character is the first of the next.
abbrev pub cut : ℕ → Bool → List Text → List Text
cut c true pieces = [] ∷ pieces
cut c false [] = (c ∷ []) ∷ []
cut c false (piece ∷ pieces) = (c ∷ piece) ∷ pieces

-- `text.split(separator)`.
unfoldable pub split : ℕ → Text → List Text
split separator [] = [] ∷ []
split separator (c ∷ text) = cut c (c == separator) (split separator text)

-- `lines.pop() || ""`, with the lines that are left.
unfoldable pub pop : List Text → List Text × Text
pop [] = ([], [])
pop (line ∷ []) = ([], line)
pop (line ∷ next ∷ lines) = (line ∷ (pop (next ∷ lines)).0, (pop (next ∷ lines)).1)

abbrev pub is_empty : Text → Bool
is_empty [] = true
is_empty (c ∷ text) = false

-- `!line.trim()`.
unfoldable pub is_blank : Text → Bool
is_blank line = is_empty (trim_end (trim_start line))

unfoldable pub messages_of : List Text → List Event
messages_of [] = []
messages_of (line ∷ lines) =
    if is_blank line then messages_of lines else message line ∷ messages_of lines

abbrev pub error_of : Option Failure → List Event
error_of none = []
error_of (some cause) = error cause ∷ []

abbrev pub is_state_open : ReadyState → Bool
is_state_open is_open = true
is_state_open _ = false

-- The statuses that `send` takes for the end of the session, and a failure without a status.
unfoldable pub ends_session : Option ℕ → Bool
ends_session none = true
ends_session (some status) = status == 0 || status == 401 || status == 410

abbrev pub line_feed : ℕ
line_feed = 10

-- `payload.error || "HTTP 管理通道失败（…）"` is the response's `error` here.
abbrev pub refusal : ℕ → String → Failure
refusal status error_text = record { name = "Error"; message = error_text; status = some status }

module _ {Rest : Type 0} where
  unfoldable pub finish : Option Failure → Channel Rest → Channel Rest × List Event
  finish cause channel = if channel.finished then (channel, []) else (
    record channel { finished = true; ready_state = is_closed },
    error_of cause ++ (closed ∷ []),
  )

  unfoldable pub close : Channel Rest → Channel Rest × List Event
  close channel =
      if channel.finished
      then (channel, [])
      else finish none (record channel { ready_state = is_closing; aborted = true })

  -- `send` up to its request, which counts as one more.
  unfoldable pub send : Channel Rest → Result (Channel Rest)
  send channel =
      if is_state_open channel.ready_state
      then ok (record channel { sends = channel.sends + 1 })
      else err (failure "管理通道暂不可用")

  unfoldable pub on_send_answer : Option Failure → Channel Rest → Channel Rest × List Event
  on_send_answer none channel = (record channel { sends = channel.sends - 1 }, [])
  on_send_answer (some cause) channel =
      let answered = record channel { sends = channel.sends - 1 } in
      if ends_session cause.status
      then finish (some cause) answered
      else (answered, send_error cause ∷ [])

  -- The `catch` of the stream loop.
  unfoldable pub reader_fails : Failure → Channel Rest → Channel Rest × List Event
  reader_fails cause channel =
      let ended = record channel { reader = reader_ended } in
      if cause.name === "AbortError" && channel.intentional
      then finish none ended
      else finish (some cause) ended

module _ (decoder : TextDecoder) where
  abbrev pub new_channel : Channel decoder.Rest
  new_channel = record {
    ready_state = is_connecting;
    intentional = false;
    finished = false;
    aborted = false;
    sends = 0;
    reader = awaits_response;
  }

  unfoldable pub on_response : Response → Channel decoder.Rest → Channel decoder.Rest × List Event
  on_response (fetch_fails cause) channel = reader_fails cause channel
  on_response (refused status error_text) channel = reader_fails (refusal status error_text) channel
  on_response without_body channel = reader_fails (failure "浏览器不支持流式管理通道") channel
  on_response with_body channel = (
    record channel { ready_state = is_open; reader = awaits_chunk decoder.new_rest [] },
    opened ∷ [],
  )

  unfoldable pub on_chunk :
      Bytes → decoder.Rest → Text → Channel decoder.Rest → Channel decoder.Rest × List Event
  on_chunk value rest pending channel =
      let decoded = decoder.decode rest value in
      let lines = pop (split line_feed (pending ++ decoded.1)) in
      (record channel { reader = awaits_chunk decoded.0 lines.1 }, messages_of lines.0)

  unfoldable pub on_done :
      decoder.Rest → Text → Channel decoder.Rest → Channel decoder.Rest × List Event
  on_done rest pending channel =
      let failed = reader_fails (failure "HTTP 管理通道已结束") channel in
      (failed.0, messages_of ((pending ++ decoder.flush rest) ∷ []) ++ failed.1)

-- What happens to a channel. A step of the reader is taken only where the reader awaits it.
pub data Action : Type 0 where
  respond : Response → Action
  chunk : Bytes → Action
  done closes calls_send marks_intentional : Action
  read_fails : Failure → Action
  send_answers : Option Failure → Action

module _ {Rest : Type 0} where
  abbrev pub if_awaiting :
      Reader Rest → Channel Rest × List Event → Channel Rest → Channel Rest × List Event
  if_awaiting awaits_response next channel = next
  if_awaiting _ next channel = (channel, [])

  abbrev pub if_reading :
      Reader Rest
      → (Rest → Text → Channel Rest × List Event)
      → Channel Rest
      → Channel Rest × List Event
  if_reading (awaits_chunk rest pending) next channel = next rest pending
  if_reading _ next channel = (channel, [])

  abbrev pub call_send : Channel Rest → Channel Rest × List Event
  call_send channel = elim (send channel) [ ok sent ↦ (sent, []) | err thrown ↦ (channel, []) ]

module _ (decoder : TextDecoder) where
  unfoldable pub act : Action → Channel decoder.Rest → Channel decoder.Rest × List Event
  act (respond response) channel =
      if_awaiting channel.reader (on_response decoder response channel) channel
  act (chunk value) channel =
      if_reading channel.reader (λ rest pending. on_chunk decoder value rest pending channel)
        channel
  act done channel =
      if_reading channel.reader (λ rest pending. on_done decoder rest pending channel) channel
  act (read_fails cause) channel =
      if_reading channel.reader (λ rest pending. reader_fails cause channel) channel
  act closes channel = close channel
  act calls_send channel = call_send channel
  act marks_intentional channel = (record channel { intentional = true }, [])
  act (send_answers cause) channel =
      if channel.sends == 0 then (channel, []) else on_send_answer cause channel

  unfoldable pub run : List Action → Channel decoder.Rest → Channel decoder.Rest × List Event
  run [] channel = (channel, [])
  run (action ∷ actions) channel =
      let next = act action channel in let rest = run actions next.0 in (rest.0, next.1 ++ rest.1)
