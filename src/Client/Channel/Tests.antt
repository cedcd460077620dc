-- ===== src/Client/Channel/Tests.antt =====
-- A stream whose lines are cut between chunks, a channel whose send is refused, a socket that falls
-- back to the stream, and the theorems at inputs.
use dawn_mesh_server.Prelude.{
  ◌≤◌, ◌≡◌, refl, not, ◌||◌, true, false, List, [], ◌∷◌, ◌++◌, some, failure, map,
}
use dawn_mesh_server.Prelude.Maps.{string_eq, number_eq}
use mathlib.Core.List.{flatten}
use dawn_mesh_server.Crypto.Bytes.{Bytes}
use dawn_mesh_server.Client.Channel.{
  TextDecoder, opened, closed, message, error, with_body, split, pop, is_blank, messages_of,
  line_feed, new_channel, on_response, on_chunk, on_done, Action, respond, chunk, done, calls_send,
  send_answers, act, run, reader_fails, finish, refusal, on_send_answer, send, ends_session,
}
use dawn_mesh_server.Crypto.Hex.{is_space}
use dawn_mesh_server.Client.Presence.{trim_start, trim_end}
use dawn_mesh_server.Client.Channel.Framing.{IsStreaming, text_of, stream_lem}
use dawn_mesh_server.Client.Channel.Closing.{
  count, is_close, is_error, one_if, has_ended, run_closes_once,
}
use dawn_mesh_server.Client.Channel.Opening.{
  hears_open, hears_nothing, begins, waited, new_channels, all_gone, any_overlap, run-all_gone,
  opened_through, http_stream, websocket,
}
use dawn_mesh_server.Client.Channel.Opening

-- A decoder of ASCII.
abbrev ascii : TextDecoder
ascii = record {
  Rest = Unit {0};
  new_rest = tt;
  decode = λ rest value. (tt, value);
  flush = λ rest. [];
}

abbrev ascii-IsStreaming : IsStreaming ascii
ascii-IsStreaming = record {
  decode-nil = λ rest. refl;
  decode-append = λ rest value more. refl;
  flush_whole = λ rest. refl;
}

-- "{}", a line feed, a blank line and "[]", cut within the first line and after the blank one.
abbrev chunks : List Bytes
chunks = (123 ∷ []) ∷ (125 ∷ 10 ∷ 32 ∷ 10 ∷ []) ∷ (91 ∷ 93 ∷ []) ∷ []

stream_runs :
    (run ascii (respond with_body ∷ (map chunk chunks ++ (done ∷ []))) (new_channel ascii)).1
    ≡ opened
      ∷ message (123 ∷ 125 ∷ [])
      ∷ message (91 ∷ 93 ∷ [])
      ∷ error (failure "HTTP 管理通道已结束")
      ∷ closed
      ∷ []
unfolding run act on_response on_chunk on_done reader_fails finish messages_of is_blank split pop
    is_space trim_start trim_end
stream_runs = refl

stream_lem_example :
    (run ascii (respond with_body ∷ (map chunk chunks ++ (done ∷ []))) (new_channel ascii)).1
    ≡ opened
      ∷ (messages_of (split line_feed (text_of ascii tt (flatten chunks)))
          ++ (error (failure "HTTP 管理通道已结束") ∷ closed ∷ []))
stream_lem_example = stream_lem ascii ascii-IsStreaming chunks

-- A send that is refused with 401 ends the channel, but not its stream, whose lines still come.
abbrev refused_send : List Action
refused_send =
    respond with_body
    ∷ calls_send
    ∷ send_answers (some (refusal 401 "expired"))
    ∷ chunk (49 ∷ 10 ∷ [])
    ∷ []

late_message :
    (run ascii refused_send (new_channel ascii)).1
    ≡ opened ∷ error (refusal 401 "expired") ∷ closed ∷ message (49 ∷ []) ∷ []
unfolding run act on_response on_chunk send on_send_answer ends_session finish messages_of is_blank
    split pop is_space trim_start trim_end
late_message = refl

run_closes_once_example :
    let after = run ascii refused_send (new_channel ascii) in
    (count is_close after.1 ≡ one_if after.0.finished)
    × (count is_error after.1 ≤ count is_close after.1)
    × ((not (has_ended after.0.reader) || after.0.finished) ≡ true)
run_closes_once_example = run_closes_once ascii refused_send

-- The socket hears nothing, then neither does the stream, and a second call gets its stream.
abbrev two_calls : List Opening.Action
two_calls =
    begins false
    ∷ waited 0 hears_nothing false
    ∷ waited 0 hears_nothing false
    ∷ begins false
    ∷ waited 0 hears_open false
    ∷ []

-- The stream that was waited for in vain stays open beside the one that follows.
left_open :
    ((Opening.run two_calls new_channels).socket ≡ some (opened_through http_stream))
    × ((Opening.run two_calls new_channels).others
        ≡ record (opened_through http_stream) { timed_out = true }
          ∷ record (opened_through websocket) {
            intentional = true;
            is_closed = true;
            timed_out = true;
          }
          ∷ [])
unfolding Opening.run Opening.act Opening.begin_connect Opening.on_waited Opening.finish_connect
    Opening.wait_for_open
left_open = (refl, refl)

-- A call that begins while another waits: the channel of the first is open and no longer the room's.
overlap_open :
    (Opening.run
      (begins false ∷ begins false ∷ waited 0 hears_open false ∷ waited 0 hears_open false ∷ [])
      new_channels).others
    ≡ opened_through websocket ∷ []
unfolding Opening.run Opening.act Opening.begin_connect Opening.on_waited Opening.finish_connect
    Opening.wait_for_open
overlap_open = refl

run-all_gone_example :
    (all_gone (Opening.run two_calls new_channels).others || any_overlap two_calls new_channels)
    ≡ true
run-all_gone_example = run-all_gone two_calls
