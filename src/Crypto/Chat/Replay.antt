-- ===== src/Crypto/Chat/Replay.antt =====
-- The replay guard of `ChatCipher.decrypt`.
use dawn_mesh_server.Prelude.{
  ℕ, ◌≤◌, ◌≡◌, refl, ◌≢◌, arith, true, List, [], ◌∷◌, Option, none, some, length, Result, ok, err,
  Failure, failure,
}
use dawn_mesh_server.Prelude.Maps.{get, codes_eq, codes_equal_iff, get-put, length-put}
use dawn_mesh_server.Crypto.Bytes.{Bytes}
use dawn_mesh_server.Crypto.Base64.{Text}
use dawn_mesh_server.Crypto.Platform.{Subtle}
use dawn_mesh_server.Crypto.Chat.{
  ChatCipher, is_replay, accept, accept_clear, decrypt, aes_decrypt, sender_of, counter_of,
}

-- The packet's counter is used up: `decrypt` takes it for a replay.
abbrev pub IsUsed : ChatCipher → Text → ℕ → Type 0
IsUsed c sender counter = is_replay (get sender c.seen) counter ≡ true

accept-IsUsed :
    (c : ChatCipher) (prefix sender : Text) (counter n : ℕ) (clear : Bytes)
    → IsUsed c sender n
    → IsUsed (accept c prefix counter clear).0 sender n
unfolding accept
accept-IsUsed c prefix sender counter n clear h =
    ground (arith, get-put prefix sender counter c.seen, codes_equal_iff prefix sender)

accept_uses :
    (c : ChatCipher) (prefix : Text) (counter : ℕ) (clear : Bytes) {c' : ChatCipher} {out : Bytes}
    → accept c prefix counter clear ≡ (c', ok out)
    → IsUsed c' prefix counter
unfolding accept
accept_uses c prefix counter clear h =
    ground (arith, get-put prefix prefix counter c.seen, codes_equal_iff prefix prefix)

is_replay-le : (o : Option ℕ) (m n : ℕ) → n ≤ m → is_replay o m ≡ true → is_replay o n ≡ true
is_replay-le none m n h u = cc
is_replay-le (some k) m n h u = ground arith

accept_refuses :
    (c : ChatCipher) (prefix : Text) (counter : ℕ) (clear : Bytes)
    → IsUsed c prefix counter
    → accept c prefix counter clear ≡ (c, err (failure "replayed chat packet"))
unfolding accept
accept_refuses c prefix counter clear h = ground arith

module _ (subtle : Subtle) where
  -- Packets with their associated data, as they arrive.
  unfoldable pub deliver : ChatCipher → List (Bytes × Bytes) → ChatCipher
  deliver c [] = c
  deliver c ((packet, aad) ∷ packets) = deliver (decrypt subtle c packet aad).0 packets

  accept_clear-IsUsed :
      (c : ChatCipher) (packet : Bytes) (r : Result Bytes) (sender : Text) (n : ℕ)
      → IsUsed c sender n
      → IsUsed (accept_clear c packet r).0 sender n
  unfolding accept_clear
  accept_clear-IsUsed c packet (err e) sender n h = h
  accept_clear-IsUsed c packet (ok clear) sender n h =
      accept-IsUsed c (sender_of packet) sender (counter_of packet) n clear h

  deliver-IsUsed :
      (c : ChatCipher) (packets : List (Bytes × Bytes)) (sender : Text) (n : ℕ)
      → IsUsed c sender n
      → IsUsed (deliver c packets) sender n
  unfolding deliver decrypt
  deliver-IsUsed c [] sender n h = h
  deliver-IsUsed c ((packet, aad) ∷ packets) sender n h =
      deliver-IsUsed (decrypt subtle c packet aad).0 packets sender n
        (accept_clear-IsUsed c packet (aes_decrypt subtle c.key packet aad) sender n h)

  accept_clear_uses :
      (c : ChatCipher) (packet : Bytes) (r : Result Bytes) {c' : ChatCipher} {out : Bytes}
      → accept_clear c packet r ≡ (c', ok out)
      → IsUsed c' (sender_of packet) (counter_of packet)
  unfolding accept_clear
  accept_clear_uses c packet (err e) h = cc
  accept_clear_uses c packet (ok clear) h =
      accept_uses c (sender_of packet) (counter_of packet) clear h

  accept_clear_refuses :
      (c : ChatCipher) (packet : Bytes) (r : Result Bytes)
      → IsUsed c (sender_of packet) (counter_of packet)
      → (out : Bytes) → (accept_clear c packet r).1 ≢ ok out
  unfolding accept_clear
  accept_clear_refuses c packet (err e) h out = λ q. cc
  accept_clear_refuses c packet (ok clear) h out =
      rw (accept_refuses c (sender_of packet) (counter_of packet) clear h) (λ q. cc)

  -- Once a packet is accepted, no packet of that sender with that counter or a lower one is
  -- accepted again, whatever arrives in between and with whatever associated data.
  pub no_replay :
      (c c' : ChatCipher) (packet aad out : Bytes)
      → decrypt subtle c packet aad ≡ (c', ok out)
      → (between : List (Bytes × Bytes)) (again aad' out' : Bytes)
      → sender_of again ≡ sender_of packet
      → counter_of again ≤ counter_of packet
      → (decrypt subtle (deliver c' between) again aad').1 ≢ ok out'
  unfolding decrypt
  no_replay c c' packet aad out h between again aad' out' same le =
      let d = deliver c' between in
      let used : IsUsed c' (sender_of packet) (counter_of packet) =
        accept_clear_uses c packet (aes_decrypt subtle c.key packet aad) h in
      let later = deliver-IsUsed c' between (sender_of packet) (counter_of packet) used in
      let exact : IsUsed d (sender_of again) (counter_of again) = rw same (
        is_replay-le (get (sender_of packet) d.seen) (counter_of packet) (counter_of again) le
          later) in
      accept_clear_refuses d again (aes_decrypt subtle d.key again aad') exact out'

  accept-bounded :
      (c : ChatCipher) (prefix : Text) (counter : ℕ) (clear : Bytes)
      → length c.seen ≤ 128
      → length (accept c prefix counter clear).0.seen ≤ 128
  unfolding accept
  accept-bounded c prefix counter clear h = ground (arith, length-put prefix counter c.seen)

  accept_clear-bounded :
      (c : ChatCipher) (packet : Bytes) (r : Result Bytes)
      → length c.seen ≤ 128
      → length (accept_clear c packet r).0.seen ≤ 128
  unfolding accept_clear
  accept_clear-bounded c packet (err e) h = h
  accept_clear-bounded c packet (ok clear) h =
      accept-bounded c (sender_of packet) (counter_of packet) clear h

  -- The table of senders never holds more than 128, over any packets.
  pub deliver_bounded :
      (c : ChatCipher) (packets : List (Bytes × Bytes))
      → length c.seen ≤ 128
      → length (deliver c packets).seen ≤ 128
  unfolding deliver decrypt
  deliver_bounded c [] h = h
  deliver_bounded c ((packet, aad) ∷ packets) h =
      deliver_bounded (decrypt subtle c packet aad).0 packets
        (accept_clear-bounded c packet (aes_decrypt subtle c.key packet aad) h)

  -- A packet that is refused for any reason leaves the cipher as it was.
  pub decrypt_error_unchanged :
      (c : ChatCipher) (packet aad : Bytes) {e : Failure}
      → (decrypt subtle c packet aad).1 ≡ err e
      → (decrypt subtle c packet aad).0 ≡ c
  unfolding decrypt accept_clear accept
  decrypt_error_unchanged c packet aad h = split (aes_decrypt subtle c.key packet aad) h
    where
      split :
          (r : Result Bytes) {e : Failure}
          → (accept_clear c packet r).1 ≡ err e
          → (accept_clear c packet r).0 ≡ c
      split (err e) h = refl
      split (ok clear) h = ground arith
