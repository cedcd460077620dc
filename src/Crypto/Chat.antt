-- ===== src/Crypto/Chat.antt =====
-- `aesEncrypt`, `aesDecrypt` and `ChatCipher` of frontend/src/client/crypto.ts. What follows the
-- only `await` of a method runs at once, so a method is a function on the cipher's state.
pub mod Nonces
pub mod Replay
pub mod Delivery
pub mod Tests
use dawn_mesh_server.Prelude.{
  ℕ, suc, ◌+◌, ◌*◌, ◌/◌, ◌%◌, ◌≤◌, ◌<◌, ◌≡◌, Bool, true, false, ◌&&◌, List, [], ◌∷◌, ◌++◌, Option,
  none, some, length, take, drop, set, get_or, replicate, ltb, leb, if◌then◌else◌, Result, ok, err,
  Failure, failure,
}
use dawn_mesh_server.Prelude.Maps.{get, put, codes_eq}
use dawn_mesh_server.Crypto.Bytes.{Bytes, concat, set_from}
use dawn_mesh_server.Crypto.Base64.{Text, base64}
use dawn_mesh_server.Crypto.Platform.{Subtle}

-- `DataView.setUint32(offset, value, false)` and `getUint32(offset, false)`.
unfoldable pub set_uint32 : Bytes → ℕ → ℕ → Bytes
unfolding set_from
set_uint32 output offset value =
    set_from output offset
      (value / 16777216 % 256 ∷ value / 65536 % 256 ∷ value / 256 % 256 ∷ (value % 256) ∷ [])

unfoldable pub get_uint32 : Bytes → ℕ → ℕ
get_uint32 bytes offset =
    get_or bytes offset 0 * 16777216
    + get_or bytes (offset + 1) 0 * 65536
    + get_or bytes (offset + 2) 0 * 256
    + get_or bytes (offset + 3) 0

pub record ChatCipher : Type 0 where
  pub key : Bytes
  pub prefix : Bytes
  pub counter : ℕ
  pub seen : List (Text × ℕ)

-- `constructor`, with the 8 random bytes of the prefix.
unfoldable pub new_cipher : Bytes → Bytes → ChatCipher
new_cipher key prefix = record { key = key; prefix = prefix; counter = 0; seen = [] }

pub operation_error : Failure
operation_error = record { name = "OperationError"; message = ""; status = none }

-- A rejected promise of `subtle.decrypt`.
abbrev or_reject : Option Bytes → Result Bytes
or_reject none = err operation_error
or_reject (some clear) = ok clear

module _ (subtle : Subtle) where
  unfoldable pub aes_encrypt : Bytes → Bytes → Bytes → Bytes → Bytes
  unfolding concat
  aes_encrypt key_bytes plaintext aad nonce =
      concat (nonce ∷ subtle.seal key_bytes nonce aad plaintext ∷ [])

  unfoldable pub aes_decrypt : Bytes → Bytes → Bytes → Result Bytes
  unfolding operation_error
  aes_decrypt key_bytes packet aad =
      if ltb (length packet) 29
      then err (failure "encrypted packet is too short")
      else or_reject (subtle.unseal key_bytes (take 12 packet) aad (drop 12 packet))

-- The nonce of a packet: the sender's prefix and its counter.
unfoldable pub nonce_of : Bytes → ℕ → Bytes
unfolding set_from set_uint32
nonce_of prefix counter = set_uint32 (set_from (replicate 12 0) 0 prefix) 8 counter

module _ (subtle : Subtle) where
  unfoldable pub encrypt : ChatCipher → Bytes → Bytes → ChatCipher × Result Bytes
  unfolding nonce_of aes_encrypt
  encrypt c plaintext aad =
      if ltb 0xffffffff c.counter then (c, err (failure "chat key exhausted")) else (
        record c { counter = c.counter + 1 },
        ok (aes_encrypt subtle c.key plaintext aad (nonce_of c.prefix c.counter)),
      )

pub sender_of : Bytes → Text
unfolding base64
sender_of packet = base64 (take 8 packet)

pub counter_of : Bytes → ℕ
unfolding get_uint32
counter_of packet = get_uint32 packet 8

-- `counter <= (seen.get(prefix) ?? -1)`.
abbrev pub is_replay : Option ℕ → ℕ → Bool
is_replay none counter = false
is_replay (some previous) counter = leb counter previous

abbrev pub is_new : Option ℕ → Bool
is_new none = true
is_new (some previous) = false

-- What `decrypt` does once the packet is authentic.
unfoldable pub accept : ChatCipher → Text → ℕ → Bytes → ChatCipher × Result Bytes
accept c prefix counter clear =
    if is_replay (get prefix c.seen) counter
    then (c, err (failure "replayed chat packet"))
    else if is_new (get prefix c.seen) && leb 128 (length c.seen)
    then (c, err (failure "too many chat senders; create a new room"))
    else (record c { seen = put prefix counter c.seen }, ok clear)

pub accept_clear : ChatCipher → Bytes → Result Bytes → ChatCipher × Result Bytes
unfolding accept sender_of counter_of
accept_clear c packet (err e) = (c, err e)
accept_clear c packet (ok clear) = accept c (sender_of packet) (counter_of packet) clear

module _ (subtle : Subtle) where
  unfoldable pub decrypt : ChatCipher → Bytes → Bytes → ChatCipher × Result Bytes
  unfolding accept_clear aes_decrypt
  decrypt c packet aad = accept_clear c packet (aes_decrypt subtle c.key packet aad)
