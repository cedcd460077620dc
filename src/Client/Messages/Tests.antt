-- ===== src/Client/Messages/Tests.antt =====
-- A text from alice to bob through a codec that writes lengths, and the theorems at inputs.
use dawn_mesh_server.Prelude.{
  zero, suc, ◌+◌, ◌≤◌, ◌<◌, ◌≡◌, refl, arith, true, false, List, [], ◌∷◌, ◌++◌, Option, none, some,
  length, take, drop, replicate, take_append, drop_append, ok,
}
use dawn_mesh_server.Prelude.Maps.{codes_eq}
use dawn_mesh_server.Prelude.Int.{ℤ, pos, negsuc}
use dawn_mesh_server.Crypto.Bytes.{Bytes}
use dawn_mesh_server.Crypto.Base64.{Text}
use dawn_mesh_server.Crypto.Hex.{is_space}
use dawn_mesh_server.Crypto.Chat.{ChatCipher, encrypt}
use dawn_mesh_server.Crypto.Chat.Delivery.{IsExpecting}
use dawn_mesh_server.Crypto.Chat.Tests.{plain, plain-IsStandard}
use dawn_mesh_server.Client.Presence.{trim_start, trim_end}
use dawn_mesh_server.Client.Messages.{
  Codec, Chat, is_too_long, receive_chat, payload_of, send_packet, send_chat,
}
use dawn_mesh_server.Client.Messages.Delivery.{IsFaithful, send_receive, authored, room_made}
use dawn_mesh_server.Client.Messages.Validity.{Action, receives, sends, all_sound, count_sends}
use dawn_mesh_server.Client.Messages.Validity.Bounds.{run, run_sound}

abbrev write_text : Option Text → Bytes
write_text none = 0 ∷ []
write_text (some text) = suc (length text) ∷ text

abbrev write_number : Option ℤ → Bytes
write_number none = 0 ∷ 0 ∷ []
write_number (some (pos n)) = 1 ∷ n ∷ []
write_number (some (negsuc n)) = 2 ∷ n ∷ []

abbrev read_text : Bytes → Option Text × Bytes
read_text [] = (none, [])
read_text (zero ∷ bytes) = (none, bytes)
read_text (suc n ∷ bytes) = (some (take n bytes), drop n bytes)

abbrev read_number : Bytes → Option ℤ
read_number (zero ∷ bytes) = none
read_number (suc zero ∷ n ∷ bytes) = some (pos n)
read_number (suc (suc k) ∷ n ∷ bytes) = some (negsuc n)
read_number _ = none

abbrev lengths : Codec
lengths = record {
  encode = λ text. text;
  write = λ p.
      write_text p.id
      ++ (write_text p.sender_id
          ++ (write_text p.sender_name ++ (write_text p.text ++ write_number p.sent_at)));
  read = λ bytes.
      let id = read_text bytes in
      let sender = read_text id.1 in
      let name = read_text sender.1 in
      let text = read_text name.1 in
      ok (record {
        id = id.0;
        sender_id = sender.0;
        sender_name = name.0;
        text = text.0;
        sent_at = read_number text.1;
      });
}

read_text-write_text :
    (text : Option Text) (rest : Bytes) → read_text (write_text text ++ rest) ≡ (text, rest)
read_text-write_text none rest = refl
read_text-write_text (some text) rest =
    rw (take_append (length text) text rest refl, drop_append (length text) text rest refl) refl

read_number-write_number : (n : Option ℤ) → read_number (write_number n) ≡ n
read_number-write_number none = refl
read_number-write_number (some (pos n)) = refl
read_number-write_number (some (negsuc n)) = refl

lengths-IsFaithful : IsFaithful lengths
lengths-IsFaithful = record {
  read-write = λ p.
      rw
        (
          read_text-write_text p.id (
              write_text p.sender_id
              ++ (write_text p.sender_name ++ (write_text p.text ++ write_number p.sent_at))),
          read_text-write_text p.sender_id
              (write_text p.sender_name ++ (write_text p.text ++ write_number p.sent_at)),
          read_text-write_text p.sender_name (write_text p.text ++ write_number p.sent_at),
          read_text-write_text p.text (write_number p.sent_at),
          read_number-write_number p.sent_at,
        )
        refl;
  write_nonempty = λ p. nonempty p.id _;
}
  where
    nonempty : (text : Option Text) (rest : Bytes) → 0 < length (write_text text ++ rest)
    nonempty none rest = omega arith
    nonempty (some text) rest = omega arith

abbrev alice : Chat
alice = record {
  chat_cipher = record {
    key = 5 ∷ [];
    prefix = 1 ∷ 2 ∷ 3 ∷ 4 ∷ 5 ∷ 6 ∷ 7 ∷ 8 ∷ [];
    counter = 0;
    seen = [];
  };
  member_id = 97 ∷ [];
  nickname = 65 ∷ [];
  messages = [];
}

abbrev bob : Chat
bob = record {
  chat_cipher = record {
    key = 5 ∷ [];
    prefix = 8 ∷ 7 ∷ 6 ∷ 5 ∷ 4 ∷ 3 ∷ 2 ∷ 1 ∷ [];
    counter = 0;
    seen = [];
  };
  member_id = 98 ∷ [];
  nickname = 66 ∷ [];
  messages = [];
}

expecting : IsExpecting bob.chat_cipher alice.chat_cipher
expecting = record { same_key = refl; unused = refl; room = refl }

-- " hi " from alice.
abbrev text : Text
text = 32 ∷ 104 ∷ 105 ∷ 32 ∷ []

abbrev value : Text
value = 104 ∷ 105 ∷ []

abbrev packet : Bytes
packet =
    1
    ∷ 2
    ∷ 3
    ∷ 4
    ∷ 5
    ∷ 6
    ∷ 7
    ∷ 8
    ∷ 0
    ∷ 0
    ∷ 0
    ∷ 0
    ∷ (replicate 16 0 ++ lengths.write (payload_of (49 ∷ []) value 7 alice))

abbrev alice' : ChatCipher
alice' = record alice.chat_cipher { counter = 1 }

value_runs : trim_end (trim_start text) ≡ value
unfolding trim_end trim_start is_space
value_runs = refl

sent_runs : send_packet plain lengths (49 ∷ []) value 7 alice ≡ (alice', ok packet)
unfolding send_packet encrypt
sent_runs = refl

fits : is_too_long lengths value ≡ false
unfolding is_too_long
fits = refl

send_receive_example :
    let value = trim_end (trim_start text) in
    let sends = send_chat plain lengths text (49 ∷ []) 7 (ok tt) alice in
    let receives = receive_chat plain lengths packet alice.member_id bob in
    (sends.1 ≡ ok tt)
    × (sends.0.messages ≡ alice.messages ++ (authored (49 ∷ []) value 7 alice alice.member_id ∷ []))
    × (receives.1 ≡ ok tt)
    × (receives.0.messages
        ≡ room_made bob.messages ++ (authored (49 ∷ []) value 7 alice bob.member_id ∷ []))
send_receive_example =
    send_receive plain plain-IsStandard lengths lengths-IsFaithful text (49 ∷ []) 7 alice bob alice'
      packet refl expecting (omega arith) (omega arith) (rw value_runs refl) (rw value_runs fits)
      (rw value_runs sent_runs)

abbrev exchanged : List Action
exchanged =
    sends text (49 ∷ []) 7 (ok tt) ∷ receives packet (97 ∷ []) ∷ receives packet (99 ∷ []) ∷ []

run_sound_example :
    (all_sound lengths alice.member_id (run plain lengths exchanged alice).messages ≡ true)
    × (length (run plain lengths exchanged alice).messages ≤ 100 + count_sends exchanged)
run_sound_example = run_sound plain lengths exchanged alice refl
