-- ===== src/Client/Channel/Opening.antt =====
-- Which channels frontend/src/client/app.ts opens: `waitForOpen`, `openEventChannel` and
-- `connectEvents`, over the channels that they leave behind.
use dawn_mesh_server.Prelude.{
  ℕ, zero, suc, ◌≡◌, refl, arith, Bool, true, false, ◌&&◌, ◌||◌, not, List, [], ◌∷◌, Option, none,
  some, if◌then◌else◌, Result, ok, err, Failure, failure,
}

-- What `waitForOpen` hears first, before or at its time limit. A socket or a stream that tells of an
-- error has closed itself.
pub data FirstHeard : Type 0 where
  hears_open hears_nothing : FirstHeard
  hears_error : Failure → FirstHeard

pub data Transport : Type 0 where
  websocket http_stream : Transport

-- A channel with the listener `onMessage`. `is_closed` says that it was closed or closed itself.
pub record EventChannel : Type 0 where
  pub transport : Transport
  pub intentional : Bool
  pub is_closed : Bool
  pub timed_out : Bool

-- `state.preferHTTPEvents`, `active.socket`, the channel that each call of `connectEvents` under way
-- waits for, and the other channels that were opened.
pub record Channels : Type 0 where
  pub prefer_http : Bool
  pub socket : Option EventChannel
  pub pending : List EventChannel
  pub others : List EventChannel

abbrev pub new_channels : Channels
new_channels = record { prefer_http = false; socket = none; pending = []; others = [] }

unfoldable pub wait_for_open : FirstHeard → EventChannel → Result (Unit {0}) × EventChannel
wait_for_open hears_open channel = (ok tt, channel)
wait_for_open hears_nothing channel =
    (err (failure "管理通道连接超时"), record channel { timed_out = true })
wait_for_open (hears_error cause) channel = (err cause, record channel { is_closed = true })

abbrev pub opened_through : Transport → EventChannel
opened_through transport = record {
  transport = transport;
  intentional = false;
  is_closed = false;
  timed_out = false;
}

-- `socket.intentional = true; socket.close(…)`.
abbrev pub give_up : EventChannel → EventChannel
give_up channel = record channel { intentional = true; is_closed = true }

abbrev pub set_aside : EventChannel → Channels → Channels
set_aside channel channels = record channels { others = channel ∷ channels.others }

abbrev pub is_websocket : Transport → Bool
is_websocket websocket = true
is_websocket http_stream = false

abbrev pub replace : Option EventChannel → Option EventChannel
replace none = none
replace (some socket) = some (give_up socket)

-- `connectEvents` up to its `await`, in `openEventChannel`. The field keeps the channel that
-- is closed until a new one is there. `leaving` is whether the room is left.
unfoldable pub begin_connect : Bool → Channels → Channels
begin_connect leaving channels =
    let transport = if channels.prefer_http then http_stream else websocket in
    if leaving then channels else record channels {
      socket = replace channels.socket;
      pending = opened_through transport ∷ channels.pending;
    }

abbrev pub set_aside_if_any : Option EventChannel → Channels → Channels
set_aside_if_any none channels = channels
set_aside_if_any (some socket) channels = set_aside socket channels

-- `connectEvents` from its `await` on. `left` is whether the room was left meanwhile.
unfoldable pub finish_connect : Bool → EventChannel → Channels → Channels
finish_connect left channel channels =
    if left
    then set_aside (give_up channel) channels
    else record (set_aside_if_any channels.socket channels) { socket = some channel }

-- `openEventChannel` once its wait for a channel is over, and what follows at once: it waits for a
-- stream in place of a socket, or the call of `connectEvents` ends, with this result.
unfoldable pub on_waited :
    FirstHeard → Bool → EventChannel → Channels → Option (Result (Unit {0})) × Channels
unfolding wait_for_open finish_connect
on_waited heard left channel channels =
    let waited = wait_for_open heard channel in
    elim waited.0 [
      | ok done ↦ (some (ok tt), finish_connect left waited.1 channels)
      | err cause ↦
          if is_websocket channel.transport
          then (
            none,
            record (set_aside (give_up waited.1) channels) {
              prefer_http = true;
              pending = opened_through http_stream ∷ channels.pending;
            },
          )
          else (some (err cause), set_aside waited.1 channels)
    ]

abbrev keep :
    EventChannel
    → Option (EventChannel × List EventChannel)
    → Option (EventChannel × List EventChannel)
keep channel none = none
keep channel (some found) = some (found.0, channel ∷ found.1)

abbrev pub remove : ℕ → List EventChannel → Option (EventChannel × List EventChannel)
remove n [] = none
remove zero (channel ∷ channels) = some (channel, channels)
remove (suc n) (channel ∷ channels) = keep channel (remove n channels)

-- A call of `connectEvents`, and the end of the wait of the n-th call that is under way, in any order.
pub data Action : Type 0 where
  begins : (leaving : Bool) → Action
  waited : ℕ → FirstHeard → (left : Bool) → Action

abbrev pub resume :
    FirstHeard → Bool → Option (EventChannel × List EventChannel) → Channels → Channels
resume heard left none channels = channels
resume heard left (some found) channels =
    (on_waited heard left found.0 (record channels { pending = found.1 })).1

unfoldable pub act : Action → Channels → Channels
unfolding begin_connect on_waited
act (begins leaving) channels = begin_connect leaving channels
act (waited n heard left) channels = resume heard left (remove n channels.pending) channels

unfoldable pub run : List Action → Channels → Channels
run [] channels = channels
run (action ∷ actions) channels = run actions (act action channels)

-- A channel is closed, or a stream that was waited for in vain.
abbrev is_gone : EventChannel → Bool
is_gone channel = channel.is_closed || (channel.timed_out && not (is_websocket channel.transport))

pub all_gone : List EventChannel → Bool
all_gone [] = true
all_gone (channel ∷ channels) = is_gone channel && all_gone channels

abbrev is_some {ℓ} : {A : Type ℓ} → List A → Bool
is_some [] = false
is_some (a ∷ rest) = true

abbrev is_call : Action → Bool
is_call (begins leaving) = not leaving
is_call (waited n heard left) = false

-- Whether a call begins while another is under way.
pub any_overlap : List Action → Channels → Bool
any_overlap [] channels = false
any_overlap (action ∷ actions) channels =
    (is_call action && is_some channels.pending) || any_overlap actions (act action channels)

abbrev is_closed_if_any : Option EventChannel → Bool
is_closed_if_any none = true
is_closed_if_any (some socket) = socket.is_closed

-- While one call is under way, the socket of the room is closed.
abbrev is_replaced : List EventChannel → Option EventChannel → Bool
is_replaced [] socket = true
is_replaced (channel ∷ []) socket = is_closed_if_any socket
is_replaced (channel ∷ other ∷ channels) socket = false

is_orderly : Channels → Bool
is_orderly channels = all_gone channels.others && is_replaced channels.pending channels.socket

begin_orderly :
    (leaving : Bool) (channels : Channels)
    → is_orderly channels ≡ true
    → (not leaving && is_some channels.pending) ≡ false
    → is_orderly (begin_connect leaving channels) ≡ true
unfolding is_orderly begin_connect
begin_orderly leaving channels h alone =
    by_pending leaving channels.prefer_http channels.socket channels.pending channels.others h alone
  where
    by_pending :
        (leaving prefer_http : Bool) (socket : Option EventChannel)
        (pending others : List EventChannel)
        → (all_gone others && is_replaced pending socket) ≡ true
        → (not leaving && is_some pending) ≡ false
        → let before : Channels = record {
          prefer_http = prefer_http;
          socket = socket;
          pending = pending;
          others = others;
        } in
          is_orderly (begin_connect leaving before) ≡ true
    by_pending true prefer_http socket pending others h alone = h
    by_pending false prefer_http socket (channel ∷ pending) others h alone = absurd (ground arith)
    by_pending false prefer_http none [] others h alone = ground arith
    by_pending false prefer_http (some socket) [] others h alone = ground arith

waited_orderly :
    (n : ℕ) (heard : FirstHeard) (left : Bool) (channels : Channels)
    → is_orderly channels ≡ true
    → is_orderly (resume heard left (remove n channels.pending) channels) ≡ true
unfolding is_orderly on_waited wait_for_open finish_connect all_gone
waited_orderly n heard left channels h =
    by_pending n channels.prefer_http channels.socket channels.pending channels.others h
  where
    by_pending :
        (n : ℕ) (prefer_http : Bool) (socket : Option EventChannel)
        (pending others : List EventChannel)
        → (all_gone others && is_replaced pending socket) ≡ true
        → let before : Channels = record {
          prefer_http = prefer_http;
          socket = socket;
          pending = pending;
          others = others;
        } in
          is_orderly (resume heard left (remove n pending) before) ≡ true
    by_pending n prefer_http socket [] others h = h
    by_pending n prefer_http socket (channel ∷ other ∷ pending) others h = absurd (ground arith)
    by_pending (suc n) prefer_http socket (channel ∷ []) others h = h
    by_pending zero prefer_http none (channel ∷ []) others h = ground arith
    by_pending zero prefer_http (some socket) (channel ∷ []) others h = ground arith

act_orderly :
    (action : Action) (channels : Channels)
    → is_orderly channels ≡ true
    → (is_call action && is_some channels.pending) ≡ false
    → is_orderly (act action channels) ≡ true
unfolding act
act_orderly (begins leaving) channels h alone = begin_orderly leaving channels h alone
act_orderly (waited n heard left) channels h alone = waited_orderly n heard left channels h

run_orderly :
    (actions : List Action) (channels : Channels)
    → is_orderly channels ≡ true
    → any_overlap actions channels ≡ false
    → is_orderly (run actions channels) ≡ true
unfolding run any_overlap
run_orderly [] channels h alone = h
run_orderly (action ∷ actions) channels h alone =
    run_orderly actions (act action channels) (act_orderly action channels h (ground arith))
      (ground arith)

-- However the calls of `connectEvents` are interleaved and whatever they hear, each channel that was
-- opened, is not waited for and is not the room's socket is closed, or is a stream over HTTP whose
-- wait ended by its time limit; unless a call began while another was under way.
pub run-all_gone :
    (actions : List Action)
    → (all_gone (run actions new_channels).others || any_overlap actions new_channels) ≡ true
run-all_gone actions = by_overlap (any_overlap actions new_channels) refl
  where
    by_overlap :
        (overlap : Bool)
        → any_overlap actions new_channels ≡ overlap
        → (all_gone (run actions new_channels).others || overlap) ≡ true
    by_overlap true h = ground arith
    by_overlap false h =
        let i = run_orderly actions new_channels (unfold is_orderly all_gone in refl) h in
        unfold is_orderly in ground (arith, i)
