-- ===== src/Crypto/Chat/Delivery.antt =====
-- Between a sender's and a receiver's `ChatCipher` with one key.
use native.Mathlib.Nat.{zero-add, suc-add}
use dawn_mesh_server.Prelude.{
  ℕ, zero, suc, ◌+◌, ◌≤◌, ◌<◌, ◌^◌, ◌≡◌, refl, ◌∙◌, arith, false, ◌&&◌, List, [], ◌∷◌, ◌++◌, map,
  All, length, drop, get_or, length-append, take_append, drop_append, le→ltb, leb, Result, ok, err,
}
use mathlib.Core.List.{append_assoc}
use dawn_mesh_server.Prelude.Maps.{get, put, codes_eq, get-put_self}
use dawn_mesh_server.Crypto.Bytes.{Bytes}
use dawn_mesh_server.Crypto.Base64.{Text, base64}
use dawn_mesh_server.Crypto.Platform.{Subtle, IsStandard}
use dawn_mesh_server.Crypto.Chat.{
  ChatCipher, get_uint32, nonce_of, aes_encrypt, aes_decrypt, encrypt, decrypt, accept,
  accept_clear, sender_of, counter_of, is_replay, is_new,
}
use dawn_mesh_server.Crypto.Chat.Nonces.{
  big_endian32, nonce_of_lem, length-nonce_of, aes_encrypt_lem, encrypted,
}

get_or-drop : (n i : ℕ) (xs : Bytes) → get_or xs (n + i) 0 ≡ get_or (drop n xs) i 0
get_or-drop zero i xs = rw (zero-add i)
get_or-drop (suc n) i [] = refl
get_or-drop (suc n) i (x ∷ xs) = rw (suc-add n i) (get_or-drop n i xs)

-- The stamp that a receiver reads from a packet is the one that the sender wrote.
packet_stamp :
    (prefix rest : Bytes) (counter : ℕ)
    → length prefix ≡ 8
    → counter < 2 ^ 32
    → (sender_of (nonce_of prefix counter ++ rest) ≡ base64 prefix)
      × (counter_of (nonce_of prefix counter ++ rest) ≡ counter)
unfolding sender_of counter_of get_uint32
packet_stamp prefix rest counter h small =
    let whole : nonce_of prefix counter ++ rest ≡ prefix ++ (big_endian32 counter ++ rest) =
      rw (nonce_of_lem prefix counter h) (append_assoc prefix (big_endian32 counter) rest) in
    let tail : drop 8 (prefix ++ (big_endian32 counter ++ rest)) ≡ big_endian32 counter ++ rest =
      drop_append 8 prefix (big_endian32 counter ++ rest) h in
    (
      rw (whole, take_append 8 prefix (big_endian32 counter ++ rest) h),
      rw
          (
            whole,
            get_or-drop 8 0 (prefix ++ (big_endian32 counter ++ rest)),
            get_or-drop 8 1 (prefix ++ (big_endian32 counter ++ rest)),
            get_or-drop 8 2 (prefix ++ (big_endian32 counter ++ rest)),
            get_or-drop 8 3 (prefix ++ (big_endian32 counter ++ rest)),
            tail,
          )
          (omega arith),
    )

-- There is room for the sender in the receiver's table, and its next counter is unused.
pub record IsExpecting (receiver sender : ChatCipher) : Type 0 where
  pub same_key : receiver.key ≡ sender.key
  pub unused : is_replay (get (base64 sender.prefix) receiver.seen) sender.counter ≡ false
  pub room :
      (is_new (get (base64 sender.prefix) receiver.seen) && leb 128 (length receiver.seen)) ≡ false

module _ (subtle : Subtle) where
  -- A packet that could not be made is not sent.
  pub receive : ChatCipher → Result Bytes → Bytes → ChatCipher × Result Bytes
  receive receiver (ok packet) aad = decrypt subtle receiver packet aad
  receive receiver (err e) aad = (receiver, err e)

  -- `texts` encrypted one after the other, each packet given to the receiver as it is made; the
  -- texts that the receiver shows.
  unfoldable pub exchange : ChatCipher → ChatCipher → Bytes → List Bytes → List (Result Bytes)
  exchange receiver sender aad [] = []
  exchange receiver sender aad (text ∷ texts) =
      let (sender', packet) = encrypt subtle sender text aad in
      let (receiver', shown) = receive receiver packet aad in
      shown ∷ exchange receiver' sender' aad texts

module _ (subtle : Subtle) (standard : IsStandard subtle) where
  pub aes_decrypt-aes_encrypt :
      (key text aad nonce : Bytes)
      → length nonce ≡ 12
      → 0 < length text
      → aes_decrypt subtle key (aes_encrypt subtle key text aad nonce) aad ≡ ok text
  unfolding aes_decrypt
  aes_decrypt-aes_encrypt key text aad nonce h nonempty =
      let cipher = subtle.seal key nonce aad text in
      let long : 29 ≤ length (nonce ++ cipher) =
        omega (arith, length-append nonce cipher, standard.length-seal key nonce aad text) in
      rw (
        aes_encrypt_lem subtle key text aad nonce,
        le→ltb (length (nonce ++ cipher)) 29 long,
        take_append 12 nonce cipher h,
        drop_append 12 nonce cipher h,
        standard.unseal-seal key nonce aad text,
      )

  -- No packet of a text that is not empty is too short.
  pub encrypt_long :
      (sender sender' : ChatCipher) (text aad packet : Bytes)
      → length sender.prefix ≡ 8
      → 0 < length text
      → encrypt subtle sender text aad ≡ (sender', ok packet)
      → 29 ≤ length packet
  encrypt_long sender sender' text aad packet h nonempty e =
      let made = encrypted subtle sender text aad e in
      let nonce = nonce_of sender.prefix sender.counter in
      let cipher = subtle.seal sender.key nonce aad text in
      let shape : packet ≡ nonce ++ cipher =
        made.2 ∙ aes_encrypt_lem subtle sender.key text aad nonce in
      rw shape (
        omega (
          arith,
          length-append nonce cipher,
          length-nonce_of sender.prefix sender.counter h,
          standard.length-seal sender.key nonce aad text,
        ))

  accept_expected :
      (receiver : ChatCipher) (prefix : Text) (counter : ℕ) (clear : Bytes)
      → is_replay (get prefix receiver.seen) counter ≡ false
      → (is_new (get prefix receiver.seen) && leb 128 (length receiver.seen)) ≡ false
      → accept receiver prefix counter clear
        ≡ (record receiver { seen = put prefix counter receiver.seen }, ok clear)
  unfolding accept
  accept_expected receiver prefix counter clear h k = rw (h, k)

  -- What a receiver does with a packet that the sender has just made: it gives the text and notes
  -- the counter.
  pub decrypt-encrypt :
      (receiver sender sender' : ChatCipher) (text aad packet : Bytes)
      → length sender.prefix ≡ 8
      → 0 < length text
      → IsExpecting receiver sender
      → encrypt subtle sender text aad ≡ (sender', ok packet)
      → decrypt subtle receiver packet aad ≡ (
        record receiver { seen = put (base64 sender.prefix) sender.counter receiver.seen },
        ok text,
      )
  unfolding decrypt
  decrypt-encrypt receiver sender sender' text aad packet h nonempty x e =
      let made = encrypted subtle sender text aad e in
      let nonce = nonce_of sender.prefix sender.counter in
      let cipher = subtle.seal sender.key nonce aad text in
      let stamp = packet_stamp sender.prefix cipher sender.counter h made.0 in
      let clear : aes_decrypt subtle receiver.key packet aad ≡ ok text =
        rw (made.2, x.same_key)
          (aes_decrypt-aes_encrypt sender.key text aad nonce
            (length-nonce_of sender.prefix sender.counter h) nonempty) in
      let shape : packet ≡ nonce ++ cipher =
        made.2 ∙ aes_encrypt_lem subtle sender.key text aad nonce in
      rw (clear, accept_clear)
        (rw (shape, stamp.0, stamp.1)
          (accept_expected receiver (base64 sender.prefix) sender.counter text x.unused x.room))

  after-IsExpecting :
      (receiver sender : ChatCipher)
      → IsExpecting receiver sender
      → IsExpecting
          (record receiver { seen = put (base64 sender.prefix) sender.counter receiver.seen })
          (record sender { counter = sender.counter + 1 })
  after-IsExpecting receiver sender x =
      let noted = get-put_self (base64 sender.prefix) sender.counter receiver.seen in
      record { same_key = x.same_key; unused = rw noted (ground arith); room = rw noted refl }

  -- A sender's stream of texts that are not empty is decrypted whole and in order, when the sender's
  -- prefix has 8 bytes, its counters stay below 2^32, and the receiver has its key, room for it in the
  -- table, and has not accepted its next counter.
  pub exchange_lem :
      (receiver sender : ChatCipher) (aad : Bytes) (texts : List Bytes)
      → length sender.prefix ≡ 8
      → IsExpecting receiver sender
      → sender.counter + length texts ≤ 2 ^ 32
      → All (λ text. 0 < length text) texts
      → exchange subtle receiver sender aad texts ≡ map ok texts
  unfolding exchange receive
  exchange_lem receiver sender aad [] h x small nonempty = refl
  exchange_lem receiver sender aad (text ∷ texts) h x small nonempty =
      let packet = aes_encrypt subtle sender.key text aad (nonce_of sender.prefix sender.counter) in
      let sender' = record sender { counter = sender.counter + 1 } in
      let receiver' = record receiver {
        seen = put (base64 sender.prefix) sender.counter receiver.seen;
      } in
      let made : encrypt subtle sender text aad ≡ (sender', ok packet) =
        unfold encrypt in rw (le→ltb 0xffffffff sender.counter (omega arith)) in
      rw (
        made,
        decrypt-encrypt receiver sender sender' text aad packet h nonempty.0 x made,
        exchange_lem receiver' sender' aad texts h (after-IsExpecting receiver sender x)
            (omega arith) nonempty.1,
      )
