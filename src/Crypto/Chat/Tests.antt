-- ===== src/Crypto/Chat/Tests.antt =====
-- `ChatCipher` over a toy cipher that meets the standards' promises, and the theorems at inputs.
use dawn_mesh_server.Prelude.{
  ℕ, ◌≡◌, ◌≢◌, refl, arith, [], ◌∷◌, ◌++◌, some, take, drop, replicate, ok, length-append,
  All-append,
}
use dawn_mesh_server.Crypto.Bytes.{Bytes, IsByte}
use dawn_mesh_server.Crypto.Base64.{base64}
use dawn_mesh_server.Crypto.Platform.{Subtle, IsStandard}
use dawn_mesh_server.Crypto.Chat.{ChatCipher, encrypt, decrypt}
use dawn_mesh_server.Crypto.Chat.Nonces.{encrypt_all, encrypt_nonce_unique}
use dawn_mesh_server.Crypto.Chat.Replay.{deliver, no_replay}
use dawn_mesh_server.Crypto.Chat.Delivery.{IsExpecting, exchange, exchange_lem}

-- The tag is sixteen zeros before the text, and is not looked at.
abbrev pub plain : Subtle
plain = record {
  digest = λ value. replicate 32 7;
  sign = λ key value. replicate 32 9;
  seal = λ key nonce aad text. replicate 16 0 ++ text;
  unseal = λ key nonce aad text. some (drop 16 text);
}

pub plain-IsStandard : IsStandard plain
plain-IsStandard = record {
  length-digest = λ value. refl;
  digest-AreBytes = λ value. omega arith;
  length-sign = λ key value. refl;
  sign-AreBytes = λ key value. omega arith;
  length-seal = λ key nonce aad text. omega (arith, length-append {A = ℕ} (replicate 16 0) text);
  seal-AreBytes = λ key nonce aad text h. All-append IsByte (replicate 16 0) text (omega arith) h;
  unseal-seal = λ key nonce aad text. refl;
}

abbrev alice : ChatCipher
alice = record { key = 5 ∷ []; prefix = 1 ∷ 2 ∷ 3 ∷ 4 ∷ 5 ∷ 6 ∷ 7 ∷ 8 ∷ []; counter = 0; seen = [] }

abbrev bob : ChatCipher
bob = record { key = 5 ∷ []; prefix = 8 ∷ 7 ∷ 6 ∷ 5 ∷ 4 ∷ 3 ∷ 2 ∷ 1 ∷ []; counter = 0; seen = [] }

abbrev hello : Bytes
hello = 104 ∷ 105 ∷ []

-- What alice sends first.
abbrev packet : Bytes
packet = 1 ∷ 2 ∷ 3 ∷ 4 ∷ 5 ∷ 6 ∷ 7 ∷ 8 ∷ 0 ∷ 0 ∷ 0 ∷ 0 ∷ (replicate 16 0 ++ hello)

abbrev packet' : Bytes
packet' = 1 ∷ 2 ∷ 3 ∷ 4 ∷ 5 ∷ 6 ∷ 7 ∷ 8 ∷ 0 ∷ 0 ∷ 0 ∷ 1 ∷ (replicate 16 0 ++ hello)

encrypt_runs : encrypt plain alice hello [] ≡ (record alice { counter = 1 }, ok packet)
unfolding encrypt
encrypt_runs = refl

encrypt_runs' :
    encrypt plain (record alice { counter = 1 }) hello []
    ≡ (record alice { counter = 2 }, ok packet')
unfolding encrypt
encrypt_runs' = refl

abbrev bob' : ChatCipher
bob' = record bob { seen = (base64 (take 8 packet), 0) ∷ [] }

decrypt_runs : decrypt plain bob packet [] ≡ (bob', ok hello)
unfolding decrypt
decrypt_runs = refl

encrypt_nonce_unique_example : ◌≢◌ {A = Bytes} (take 12 packet) (take 12 packet')
unfolding encrypt_all
encrypt_nonce_unique_example =
    encrypt_nonce_unique plain alice (record alice { counter = 1 }) (record alice { counter = 2 })
      hello [] packet refl encrypt_runs [] hello [] packet' encrypt_runs'

no_replay_example : (decrypt plain (deliver plain bob' []) packet []).1 ≢ ok hello
no_replay_example =
    no_replay plain bob bob' packet [] hello decrypt_runs [] packet [] hello refl (omega arith)

expecting : IsExpecting bob alice
expecting = record { same_key = refl; unused = refl; room = refl }

exchange_lem_example : exchange plain bob alice [] (hello ∷ hello ∷ []) ≡ ok hello ∷ ok hello ∷ []
exchange_lem_example =
    exchange_lem plain plain-IsStandard bob alice [] (hello ∷ hello ∷ []) refl expecting
      (omega arith) (omega arith)
