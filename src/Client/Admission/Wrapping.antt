-- ===== src/Client/Admission/Wrapping.antt =====
-- From `createRoom` of the host to `completeAdmission` of a guest with the same code.
use dawn_mesh_server.Prelude.{
  ◌≡◌, refl, sym, ap, ◌∙◌, arith, Bool, List, none, some, String, length, Result, ok, >>=-eq-ok,
  All-append,
}
use dawn_mesh_server.Crypto.Bytes.{Bytes, IsByte, AreBytes}
use dawn_mesh_server.Crypto.Base64.{Text, base64}
use dawn_mesh_server.Crypto.Base64.RoundTrip.{from_base64-base64}
use dawn_mesh_server.Crypto.Platform.{Subtle, IsStandard}
use dawn_mesh_server.Crypto.Chat.{ChatCipher, new_cipher, aes_encrypt}
use dawn_mesh_server.Crypto.Chat.Nonces.{aes_encrypt_lem}
use dawn_mesh_server.Crypto.Chat.Delivery.{aes_decrypt-aes_encrypt}
use dawn_mesh_server.Crypto.Scrypt.{internet_invite_credentials}
use dawn_mesh_server.Client.Presence.{trim_start, trim_end}
use dawn_mesh_server.Client.Admission.{
  RoomOffer, Draws, RoomSummary, find_salt, offer_of, create_cipher, room_cipher, create_room,
  complete_admission,
}

module _ (subtle : Subtle) (standard : IsStandard subtle) where
  packet-AreBytes :
      (key text aad nonce : Bytes)
      → AreBytes nonce
      → AreBytes text
      → AreBytes (aes_encrypt subtle key text aad nonce)
  packet-AreBytes key text aad nonce h k = rw (aes_encrypt_lem subtle key text aad nonce) (
      All-append IsByte nonce (subtle.seal key nonce aad text) h
        (standard.seal-AreBytes key nonce aad text k))

  -- A guest who enters the host's code, with whatever spaces around it, gets the host's room key, and
  -- the chat cipher that it then enters the room with, whatever its prefix, has the key of the
  -- host's: where the list of rooms has the salt of the host's offer, and the server answers the
  -- offer's credential with its wrapped key. The room key is 32 bytes and the nonce 12, the salt is
  -- of bytes, the host's offer could be made, and the primitives are standard.
  pub admission_lem :
      (room_id : String) (input invite_code : Text) (allows_monitoring : Bool) (draws : Draws)
      (offer : RoomOffer) (cipher : ChatCipher) (rooms : List RoomSummary)
      (join : Text → Result Text) (prefix : Bytes)
      → length draws.room_key ≡ 32
      → AreBytes draws.room_key
      → AreBytes draws.salt
      → length draws.nonce ≡ 12
      → AreBytes draws.nonce
      → create_room subtle input allows_monitoring draws ≡ ok (offer, cipher)
      → trim_end (trim_start invite_code) ≡ trim_end (trim_start input)
      → find_salt room_id rooms ≡ some offer.join_salt
      → join offer.join_credential ≡ ok offer.wrapped_room_key
      → (complete_admission subtle room_id invite_code rooms join ≡ ok draws.room_key)
        × ((room_cipher subtle none draws.room_key prefix).key
            ≡ (room_cipher subtle (some cipher) draws.room_key draws.prefix).key)
  unfolding complete_admission create_room offer_of create_cipher new_cipher
  admission_lem room_id input invite_code allows_monitoring draws offer cipher rooms join prefix
        size bytes salt_bytes nonce_size nonce_bytes created same_code found joined =
      let (keys, derived, made) =
        >>=-eq-ok (internet_invite_credentials subtle (trim_end (trim_start input)) draws.salt) _
          created in
      let key = draws.room_key in
      let packet = aes_encrypt subtle keys.wrapping_key key keys.aad draws.nonce in
      let offered = offer_injective made in
      let found' : find_salt room_id rooms ≡ some (base64 draws.salt) =
        found ∙ ap (λ o. some o.join_salt) (sym offered) in
      let joined' : join keys.credential ≡ ok (base64 packet) =
        ap (λ o. join o.join_credential) offered
        ∙ joined
        ∙ ap (λ o. ok o.wrapped_room_key) (sym offered) in
      rw
        (
          found',
          from_base64-base64 draws.salt salt_bytes,
          same_code,
          derived,
          joined',
          from_base64-base64 packet
              (packet-AreBytes keys.wrapping_key key keys.aad draws.nonce nonce_bytes bytes),
          aes_decrypt-aes_encrypt subtle standard keys.wrapping_key key keys.aad draws.nonce
              nonce_size (omega arith),
          size,
        )
        (refl, ap (λ c. c.key) (cipher_injective made))
    where
      value_injective : {a b : RoomOffer × ChatCipher} → ok a ≡ ok b → a ≡ b
      value_injective h = cc

      offer_injective : {p q : RoomOffer × ChatCipher} → ok p ≡ ok q → p.0 ≡ q.0
      offer_injective h = ap (λ p. p.0) (value_injective h)

      cipher_injective : {p q : RoomOffer × ChatCipher} → ok p ≡ ok q → p.1 ≡ q.1
      cipher_injective h = ap (λ p. p.1) (value_injective h)
