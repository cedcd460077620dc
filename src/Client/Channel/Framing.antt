-- ===== src/Client/Channel/Framing.antt =====
-- The lines that the stream of frontend/src/client/app.ts brings, however the network cuts it.
use dawn_mesh_server.Prelude.{
  ℕ, ◌≡◌, refl, ap, ◌∙◌, sym, arith, Bool, false, List, [], ◌∷◌, ◌++◌, ◌==◌, failure, ◌||◌,
  Bool-cases, inl, inr, map,
}
use dawn_mesh_server.Prelude.Maps.{string_eq, number_eq, contains, contains-append}
use mathlib.Core.List.{flatten, append-nil, append_assoc}
use dawn_mesh_server.Crypto.Bytes.{Bytes}
use dawn_mesh_server.Crypto.Base64.{Text}
use dawn_mesh_server.Client.Channel.{
  TextDecoder, cut, Event, opened, closed, error, Channel, with_body, split, pop, is_blank,
  messages_of, line_feed, new_channel, on_response, on_chunk, on_done, respond, chunk, done, act,
  run, reader_fails, finish, awaits_chunk, is_open,
}

-- The pieces are at least one.
split-IsSome :
    (separator : ℕ) (text : Text)
    → (piece : Text) × (pieces : List Text) × (split separator text ≡ piece ∷ pieces)
unfolding split
split-IsSome separator [] = ([], [], refl)
split-IsSome separator (c ∷ text) =
    let rest = split-IsSome separator text in
    elim (Bool-cases (c == separator)) [
      | inl same ↦ ([], split separator text, rw same refl)
      | inr other ↦ (c ∷ rest.0, rest.1, rw (other, rest.2) refl)
    ]

cut-append :
    (separator c : ℕ) (more piece : Text) (pieces : List Text)
    → (c == separator) ≡ false
    → cut c false ((pop (piece ∷ pieces)).0 ++ split separator ((pop (piece ∷ pieces)).1 ++ more))
      ≡ (pop ((c ∷ piece) ∷ pieces)).0 ++ split separator ((pop ((c ∷ piece) ∷ pieces)).1 ++ more)
unfolding split pop
cut-append separator c more piece [] other = rw other refl
cut-append separator c more piece (next ∷ pieces) other = refl

-- What follows a text goes on with the last of its pieces.
split-append :
    (separator : ℕ) (text more : Text)
    → split separator (text ++ more)
      ≡ (pop (split separator text)).0 ++ split separator ((pop (split separator text)).1 ++ more)
unfolding split pop
split-append separator [] more = refl
split-append separator (c ∷ text) more =
    let rest = split-IsSome separator text in
    elim (Bool-cases (c == separator)) [
      | inl same ↦ rw (same, split-append separator text more, rest.2) refl
      | inr other ↦
          rw (other, split-append separator text more, rest.2)
            (cut-append separator c more rest.0 rest.1 other)
    ]

messages_of-append :
    (lines more : List Text) → messages_of (lines ++ more) ≡ messages_of lines ++ messages_of more
unfolding messages_of
messages_of-append [] more = refl
messages_of-append (line ∷ lines) more = elim (Bool-cases (is_blank line)) [
  | inl blank ↦ rw (blank, messages_of-append lines more) refl
  | inr written ↦ rw (written, messages_of-append lines more) refl
]

-- All pieces of a text are those that `pop` leaves and the one that it takes.
pop-append :
    (piece : Text) (pieces : List Text)
    → (pop (piece ∷ pieces)).0 ++ ((pop (piece ∷ pieces)).1 ∷ []) ≡ piece ∷ pieces
unfolding pop
pop-append piece [] = refl
pop-append piece (next ∷ pieces) = ap (◌∷◌ piece) (pop-append next pieces)

split_whole :
    (separator : ℕ) (text : Text)
    → contains separator text ≡ false
    → split separator text ≡ text ∷ []
unfolding split
split_whole separator [] h = refl
split_whole separator (c ∷ text) h =
    let parts = both_false (c == separator) (contains separator text) h in
    rw (parts.0, split_whole separator text parts.1) refl
  where
    both_false : (a b : Bool) → (a || b) ≡ false → (a ≡ false) × (b ≡ false)
    both_false a b h = ground arith

-- No separator is left in the piece that `pop` takes.
pop_whole :
    (separator : ℕ) (text : Text) → contains separator (pop (split separator text)).1 ≡ false
unfolding split pop
pop_whole separator [] = refl
pop_whole separator (c ∷ text) =
    let rest = split-IsSome separator text in
    elim (Bool-cases (c == separator)) [
      | inl same ↦ let before = pop_whole separator text in rw (same, rest.2) (rw rest.2 at before)
      | inr other ↦
          let before = pop_whole separator text in
          rw (other, rest.2) (longer rest.0 rest.1 other (rw rest.2 at before))
    ]
  where
    longer :
        (piece : Text) (pieces : List Text)
        → (c == separator) ≡ false
        → contains separator (pop (piece ∷ pieces)).1 ≡ false
        → contains separator (pop ((c ∷ piece) ∷ pieces)).1 ≡ false
    longer piece [] other h = rw (other, h) refl
    longer piece (next ∷ pieces) other h = h

-- What the Encoding Standard says of a decoder: a cut between chunks changes nothing, and what is
-- left at the end is no line feed.
pub record IsStreaming (decoder : TextDecoder) : Type 0 where
  pub decode-nil : (rest : decoder.Rest) → decoder.decode rest [] ≡ (rest, [])
  pub decode-append :
      (rest : decoder.Rest) (value more : Bytes)
      → decoder.decode rest (value ++ more) ≡ (
        (decoder.decode (decoder.decode rest value).0 more).0,
        (decoder.decode rest value).1 ++ (decoder.decode (decoder.decode rest value).0 more).1,
      )
  pub flush_whole : (rest : decoder.Rest) → contains line_feed (decoder.flush rest) ≡ false

-- The text of all bytes at once.
pub text_of : (decoder : TextDecoder) → decoder.Rest → Bytes → Text
text_of decoder rest bytes =
    let decoded = decoder.decode rest bytes in decoded.1 ++ decoder.flush decoded.0

abbrev reading :
    (decoder : TextDecoder) → decoder.Rest → Text → Channel decoder.Rest → Channel decoder.Rest
reading decoder rest pending channel = record channel { reader = awaits_chunk rest pending }

module _ (decoder : TextDecoder) (standard : IsStreaming decoder) where
  -- The lines of a chunk, and then those of the rest.
  chunk_first :
      (rest : decoder.Rest) (pending : Text) (value later : Bytes)
      → let decoded = decoder.decode rest value in
        let lines = pop (split line_feed (pending ++ decoded.1)) in
        messages_of (split line_feed (pending ++ text_of decoder rest (value ++ later)))
        ≡ messages_of lines.0
          ++ messages_of (split line_feed (lines.1 ++ text_of decoder decoded.0 later))
  unfolding text_of
  chunk_first rest pending value later =
      let a = (decoder.decode rest value).1 in
      let next = decoder.decode (decoder.decode rest value).0 later in
      let b = next.1 in
      let f = decoder.flush next.0 in
      let pieces = split line_feed (pending ++ a) in
      rw
        (
          standard.decode-append rest value later,
          append_assoc a b f,
          ← append_assoc pending a (b ++ f),
          split-append line_feed (pending ++ a) (b ++ f),
        )
        (messages_of-append (pop pieces).0 (split line_feed ((pop pieces).1 ++ (b ++ f))))

  reads :
      (chunks : List Bytes) (rest : decoder.Rest) (pending : Text) (channel : Channel decoder.Rest)
      → contains line_feed pending ≡ false
      → (run decoder (map chunk chunks ++ (done ∷ [])) (reading decoder rest pending channel)).1
        ≡ messages_of (split line_feed (pending ++ text_of decoder rest (flatten chunks)))
          ++ (reader_fails (failure "HTTP 管理通道已结束") channel).1
  unfolding run act text_of on_done on_chunk flatten reader_fails
  reads [] rest pending channel whole =
      let f = decoder.flush rest in
      let end = pending ++ f in
      let no_more = ended channel in
      let is_whole =
        contains-append line_feed pending f ∙ rw (whole, standard.flush_whole rest) refl in
      rw (standard.decode-nil rest, split_whole line_feed end is_whole)
        (append_assoc (messages_of (end ∷ [])) no_more [] ∙ rw (append-nil no_more) refl)
    where
      ended : Channel decoder.Rest → List Event
      ended channel = (reader_fails (failure "HTTP 管理通道已结束") channel).1
  reads (value ∷ chunks) rest pending channel whole =
      let decoded = decoder.decode rest value in
      let lines = pop (split line_feed (pending ++ decoded.1)) in
      let later =
        messages_of (split line_feed (lines.1 ++ text_of decoder decoded.0 (flatten chunks))) in
      let after = (reader_fails (failure "HTTP 管理通道已结束") channel).1 in
      rw
        (
          reads chunks decoded.0 lines.1 channel (pop_whole line_feed (pending ++ decoded.1)),
          chunk_first rest pending value (flatten chunks),
        )
        (sym (append_assoc (messages_of lines.0) later after))

  -- The messages of a stream are its lines that are not blank, in order and whole, however the
  -- network cuts the bytes, characters included; then its end is told as an error and a close. The
  -- decoder is standard, and nothing else happens to the channel meanwhile.
  pub stream_lem :
      (chunks : List Bytes)
      → (run decoder
          (respond with_body ∷ (map chunk chunks ++ (done ∷ [])))
          (new_channel decoder)).1
        ≡ opened
          ∷ (messages_of (split line_feed (text_of decoder decoder.new_rest (flatten chunks)))
              ++ (error (failure "HTTP 管理通道已结束") ∷ closed ∷ []))
  unfolding run act on_response reader_fails finish
  stream_lem chunks = ap (◌∷◌ opened) (
      reads chunks decoder.new_rest [] (record (new_channel decoder) { ready_state = is_open })
        refl)
