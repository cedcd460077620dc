-- ===== src/Lib.antt =====
-- Verification of the DawnMesh browser client, the TypeScript under frontend/src.
--
-- The client talks in a room over LiveKit. A room key encrypts media and chat, an invitation code opens
-- the room, and a management channel tells the client who is there and who may speak. The parts and the
-- files that model them:
--
-- - Crypto/Bytes: byte strings and integers of frontend/src/client/crypto.ts (bigintFromBytes,
--   bigintBytes, uint64LE, concat, timingSafeEqual). A byte array is the list of its bytes.
-- - Crypto/Base64, Crypto/Hex: base64, base64Url, fromBase64, hexBytes, toHex, and mediaKey of
--   frontend/src/shared/media-key.ts. A text is the list of its code units; btoa, atob, padEnd and
--   parseInt are written out.
-- - Crypto/Platform: WebCrypto as a record of functions. `IsStandard` states what the standards promise
--   of them: the lengths of digests, and that AES-GCM opens what it sealed. Nothing is assumed of their
--   strength.
-- - Crypto/Chat: the class ChatCipher, which numbers its nonces and keeps a table of the counters seen.
--   A method gives the cipher after it and a result; an exception is the `err` of a result.
-- - Crypto/Field, Crypto/Curve: mod, modPow, modInverse, and the points of P-256 with their encodings.
--   A bigint is a natural number, or an integer where it may be negative. The loops run on fuel: one
--   more than the exponent, the scalar or the denominator, which each loop at least halves or lowers at
--   each turn.
-- - Crypto/Spake2: the class Spake2, its masks, transcript and keys.
-- - Crypto/Scrypt: scrypt with one PBKDF2 iteration, and the credentials that an invitation code gives.
--   A `Uint32Array` is the list of its words, and the 32 statements of a double round are a table;
--   Crypto/Scrypt/Salsa has the rounds of Salsa20 as its specification describes them.
-- - Shared/PressToTalk: bindPressToTalk of frontend/src/shared/press-to-talk.ts. An event carries the
--   DOM's answers, and a listener gives the binding after it and the calls it makes.
-- - Shared/MicrophoneGate: frontend/src/shared/microphone-gate.ts. The methods are functions, and the
--   promise chain is a step relation in which mute and unmute of the SDK take their time. It is assumed
--   that an unmute that rejects leaves the track as it was.
-- - Client/Presence: frontend/src/client/presence.ts. Timers are entries that may fire in any order.
-- - Client/Voice: the handlers of frontend/src/client/app.ts that decide whether the microphone is
--   wanted, over the gate of Shared/MicrophoneGate. An `await` between two steps of one handler is not
--   interleaved with other handlers, except in initializeAudioDevices, connectMedia and the choice of the
--   voice mode, whose parts are steps of their own. `room.state` changes with the events of LiveKit, and
--   also, as a step of its own, with no event that has a handler, as for "signalReconnecting".
-- - Client/Recovery: how frontend/src/client/app.ts recovers the management channel and the media
--   connection. The callback of a timer runs at once, with the outcome of its requests and the time at
--   which they answer.
-- - Client/Invite: randomInvite of frontend/src/client/app.ts, over the words that are drawn.
-- - Client/Channel: openHTTPEventChannel of frontend/src/client/app.ts, whose stream loop and requests are
--   steps that dispatch events, and, in Client/Channel/Opening, waitForOpen, openEventChannel and
--   connectEvents, whose calls are cut at their awaits and may overlap. `TextDecoder` is a parameter; `IsStreaming` states what its standard promises.
-- - Client/Messages: receiveChat and sendChat of frontend/src/client/app.ts over ChatCipher. `JSON` and the
--   text codecs are a parameter; `IsFaithful` states that what is written is read again.
-- - Client/Leaving: cleanupRoom, handleRoomEnded, leaveRoom, the invitation card and the wake lock, over
--   the room of Client/Voice. An `await` in them is not interleaved with other handlers.
-- - Client/Events: handleManagementEvent over the rooms of Client/Voice and Client/Leaving, with the button
--   of the invitation card, its timer, and the page's visibilitychange.
-- - Client/Errors: errorText, operation, mediaFailureText and diagnoseMediaFailure. Errors are objects in
--   a list, so that causes may form cycles; the loops run on fuel, two turns more than there are errors.
-- - Client/Derivation: deriveInviteCredentials of frontend/src/client/invite-kdf.ts with the reply of
--   invite-worker.ts. Client/Admission: the keys of createRoom and completeAdmission,
--   and the chat cipher that enterRoom takes.
-- - Admin/Listening, Admin/Session, Admin/Duration: frontend/src/admin/app.ts. startListening and
--   stopListening are the steps between their awaits, in any order; then the sign-in with the overview
--   it loads, and formatDuration.
-- - Prelude: shared lemmas on Booleans, lists, bits, integers, maps and results.
--
-- Not modelled: rendering, and the server, which is written in Go.
pub mod Prelude
pub mod Crypto
pub mod Shared
pub mod Client
pub mod Admin
