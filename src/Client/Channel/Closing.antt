-- ===== src/Client/Channel/Closing.antt =====
-- How a channel of frontend/src/client/app.ts ends.
use dawn_mesh_server.Prelude.{
  ℕ, ◌+◌, ◌≤◌, ◌≡◌, refl, arith, Bool, true, false, ◌||◌, not, List, [], ◌∷◌, ◌++◌, Option, none,
  some, if◌then◌else◌, Failure, ◌==◌, failure,
}
use dawn_mesh_server.Crypto.Bytes.{Bytes}
use dawn_mesh_server.Crypto.Base64.{Text}
use dawn_mesh_server.Client.Channel.{
  TextDecoder, Event, closed, error, Channel, Reader, Response, with_body, awaits_response,
  if_awaiting, if_reading, call_send, awaits_chunk, reader_ended, messages_of, new_channel,
  on_response, on_chunk, on_done, Action, act, run, reader_fails, finish, close, send,
  on_send_answer, fetch_fails, refused, without_body, refusal, pop, split, line_feed, respond,
  chunk, done, closes, calls_send, marks_intentional, read_fails, send_answers,
}

abbrev pub is_close : Event → Bool
is_close closed = true
is_close _ = false

abbrev pub is_error : Event → Bool
is_error (error cause) = true
is_error _ = false

pub count : (Event → Bool) → List Event → ℕ
count test [] = 0
count test (event ∷ events) = if test event then 1 + count test events else count test events

abbrev pub one_if : Bool → ℕ
one_if true = 1
one_if false = 0

abbrev pub has_ended : {Rest : Type 0} → Reader Rest → Bool
has_ended reader_ended = true
has_ended _ = false

count-append :
    (test : Event → Bool) (xs ys : List Event)
    → count test (xs ++ ys) ≡ count test xs + count test ys
unfolding count
count-append test [] ys = omega arith
count-append test (x ∷ xs) ys = ground (arith, count-append test xs ys)

messages_of_quiet :
    (lines : List Text)
    → (count is_close (messages_of lines) ≡ 0) × (count is_error (messages_of lines) ≡ 0)
unfolding count messages_of
messages_of_quiet [] = (refl, refl)
messages_of_quiet (line ∷ lines) = ground (arith, messages_of_quiet lines)

-- A step dispatches `close` exactly if it ends the channel, and `error` at most then; a reader that
-- has ended leaves the channel ended, if it was before.
IsFair : {Rest : Type 0} → Channel Rest → Channel Rest × List Event → Type 0
IsFair channel (next, events) =
    (one_if channel.finished + count is_close events ≡ one_if next.finished)
    × (count is_error events ≤ count is_close events)
    × ((has_ended channel.reader ≡ true → channel.finished ≡ true)
        → has_ended next.reader ≡ true
        → next.finished ≡ true)

module _ {Rest : Type 0} where
  finish-IsFair :
      (cause : Option Failure) (channel : Channel Rest) → IsFair channel (finish cause channel)
  unfolding IsFair finish count
  finish-IsFair none channel = ground arith
  finish-IsFair (some cause) channel = ground arith

  close-IsFair : (channel : Channel Rest) → IsFair channel (close channel)
  unfolding IsFair finish close count
  close-IsFair channel = ground arith

  -- A reader that fails leaves the channel ended, whatever it was before.
  reader_fails-IsFair :
      (cause : Failure) (channel : Channel Rest) → IsFair channel (reader_fails cause channel)
  unfolding IsFair finish reader_fails count
  reader_fails-IsFair cause channel = ground arith

  send_answer-IsFair :
      (cause : Option Failure) (channel : Channel Rest)
      → IsFair channel (on_send_answer cause channel)
  unfolding IsFair finish on_send_answer count
  send_answer-IsFair none channel = ground arith
  send_answer-IsFair (some cause) channel = ground arith

  sends-IsFair : (channel : Channel Rest) → IsFair channel (call_send channel)
  unfolding IsFair send count
  sends-IsFair channel = ground arith

  idle-IsFair : (channel : Channel Rest) → IsFair channel (channel, [])
  unfolding IsFair count
  idle-IsFair channel = ground arith

  marked-IsFair :
      (channel : Channel Rest) → IsFair channel (record channel { intentional = true }, [])
  unfolding IsFair count
  marked-IsFair channel = ground arith

  if-IsFair :
      (b : Bool) (channel : Channel Rest) (next : Channel Rest × List Event)
      → IsFair channel next
      → IsFair channel (if b then (channel, []) else next)
  if-IsFair true channel next h = idle-IsFair channel
  if-IsFair false channel next h = h

  awaiting-IsFair :
      (reader : Reader Rest) (next : Channel Rest × List Event) (channel : Channel Rest)
      → IsFair channel next
      → IsFair channel (if_awaiting reader next channel)
  awaiting-IsFair awaits_response next channel h = h
  awaiting-IsFair reader_ended next channel h = idle-IsFair channel
  awaiting-IsFair (awaits_chunk rest pending) next channel h = idle-IsFair channel

  reading-IsFair :
      (reader : Reader Rest) (next : Rest → Text → Channel Rest × List Event)
      (channel : Channel Rest)
      → ((rest : Rest) (pending : Text) → IsFair channel (next rest pending))
      → IsFair channel (if_reading reader next channel)
  reading-IsFair awaits_response next channel h = idle-IsFair channel
  reading-IsFair reader_ended next channel h = idle-IsFair channel
  reading-IsFair (awaits_chunk rest pending) next channel h = h rest pending

module _ (decoder : TextDecoder) where
  response-IsFair :
      (response : Response) (channel : Channel decoder.Rest)
      → IsFair channel (on_response decoder response channel)
  unfolding IsFair on_response count
  response-IsFair (fetch_fails cause) channel = reader_fails-IsFair cause channel
  response-IsFair (refused status text) channel = reader_fails-IsFair (refusal status text) channel
  response-IsFair without_body channel = reader_fails-IsFair (failure "浏览器不支持流式管理通道") channel
  response-IsFair with_body channel = ground arith

  chunk-IsFair :
      (value : Bytes) (rest : decoder.Rest) (pending : Text) (channel : Channel decoder.Rest)
      → IsFair channel (on_chunk decoder value rest pending channel)
  unfolding IsFair on_chunk
  chunk-IsFair value rest pending channel =
      let lines = (pop (split line_feed (pending ++ (decoder.decode rest value).1))).0 in
      ground (arith, messages_of_quiet lines)

  done-IsFair :
      (rest : decoder.Rest) (pending : Text) (channel : Channel decoder.Rest)
      → IsFair channel (on_done decoder rest pending channel)
  unfolding IsFair on_done
  done-IsFair rest pending channel =
      let cause = failure "HTTP 管理通道已结束" in
      let last = messages_of ((pending ++ decoder.flush rest) ∷ []) in
      let after = (reader_fails cause channel).1 in
      ground (
        arith,
        messages_of_quiet ((pending ++ decoder.flush rest) ∷ []),
        reader_fails-IsFair cause channel,
        count-append is_close last after,
        count-append is_error last after,
      )

  act-IsFair :
      (action : Action) (channel : Channel decoder.Rest)
      → IsFair channel (act decoder action channel)
  unfolding act
  act-IsFair (respond response) channel =
      awaiting-IsFair channel.reader (on_response decoder response channel) channel
        (response-IsFair response channel)
  act-IsFair (chunk value) channel =
      reading-IsFair channel.reader (λ rest pending. on_chunk decoder value rest pending channel)
        channel (λ rest pending. chunk-IsFair value rest pending channel)
  act-IsFair done channel =
      reading-IsFair channel.reader (λ rest pending. on_done decoder rest pending channel) channel
        (λ rest pending. done-IsFair rest pending channel)
  act-IsFair (read_fails cause) channel =
      reading-IsFair channel.reader (λ rest pending. reader_fails cause channel) channel
        (λ rest pending. reader_fails-IsFair cause channel)
  act-IsFair closes channel = close-IsFair channel
  act-IsFair calls_send channel = sends-IsFair channel
  act-IsFair marks_intentional channel = marked-IsFair channel
  act-IsFair (send_answers cause) channel =
      if-IsFair (channel.sends == 0) channel (on_send_answer cause channel)
        (send_answer-IsFair cause channel)

  run-IsFair :
      (actions : List Action) (channel : Channel decoder.Rest)
      → IsFair channel (run decoder actions channel)
  unfolding run IsFair
  run-IsFair [] channel = idle-IsFair channel
  run-IsFair (action ∷ actions) channel =
      let first = act decoder action channel in
      let rest = run decoder actions first.0 in
      ground (
        arith,
        act-IsFair action channel,
        run-IsFair actions first.0,
        count-append is_close first.1 rest.1,
        count-append is_error first.1 rest.1,
      )

  -- Over anything that happens to a new channel, in any order, `close` is dispatched once if the
  -- channel has ended and never if not, `error` at most as often; and a reader that has come to its
  -- end, however it did, has ended the channel.
  pub run_closes_once :
      (actions : List Action)
      → let after = run decoder actions (new_channel decoder) in
        (count is_close after.1 ≡ one_if after.0.finished)
        × (count is_error after.1 ≤ count is_close after.1)
        × ((not (has_ended after.0.reader) || after.0.finished) ≡ true)
  unfolding IsFair
  run_closes_once actions = ground (arith, run-IsFair actions (new_channel decoder))
