-- ===== src/Sync/Pairing.antt =====
-- The pairing of two devices, src-tauri/src/sync/pairing.rs, as flows of messages. SPAKE2, HMAC, the
-- cipher XChaCha20-Poly1305 and SHA-256 are parameters; what the code draws at random, the secrets of
-- SPAKE2 and the nonces, are arguments. An error's text stands for the text that it begins with.
pub mod Laws
pub mod Reflection
mod Tests
use Prim.Native.String.{String}
use bushido.Prelude.{
  ℕ, ◌+◌, ◌/◌, ◌%◌, Bool, true, false, not, List, [], ◌∷◌, ◌++◌, Bytes, codes, length, take, drop,
  ltb, if◌then◌else◌, Result, ok, err,
}
use bushido.Prelude.Table.{list_beq}
use bushido.Sync.Protocol.{
  SyncMessage, pair_request, pair_accept, pair_reject, spake_msg, pair_confirm, pair_key_exchange,
  pair_complete,
}
use bushido.Sync.Talk.{Talk, done, fault, tell, ask, of_result, ◌>>=◌, ◌>>◌}

-- `PairResult`
pub record PairResult : Type 0 where
  pub device_id : Bytes
  pub device_name : Bytes
  pub noise_public_key : Bytes
  pub fingerprint : Bytes

-- `Spake2`: its state after a start on a code with a secret, the message that it sends, and what it
-- makes of the peer's; HMAC-SHA256 of a key and data; the cipher with its 32-byte key and its nonce.
pub record PairCrypto : Type 1 where
  pub SpakeState : Type 0
  pub start_a : Bytes → Bytes → SpakeState × Bytes
  pub start_b : Bytes → Bytes → SpakeState × Bytes
  pub finish : SpakeState → Bytes → Result Bytes
  pub hmac : Bytes → Bytes → Bytes
  pub encrypt : Bytes → Bytes → Bytes → Result Bytes
  pub decrypt : Bytes → Bytes → Bytes → Result Bytes
  pub sha256 : Bytes → Bytes

abbrev pub confirm_label : Bytes
confirm_label = codes "bushido-pair-confirm"

-- What a device brings to a pairing.
pub record Device : Type 0 where
  pub device_id : Bytes
  pub device_name : Bytes
  pub noise_public_key : Bytes

-- A digit of `{:02x}`.
abbrev pub hex_digit : ℕ → ℕ
hex_digit n = if ltb n 10 then 48 + n else 87 + n

-- `hex_encode` of keys.rs
abbrev pub hex_encode : Bytes → Bytes
hex_encode [] = []
hex_encode (b ∷ bytes) = hex_digit (b / 16) ∷ hex_digit (b % 16) ∷ hex_encode bytes

abbrev pub expect_spake : SyncMessage → Talk Bytes
expect_spake (spake_msg msg) = done msg
expect_spake other = fault "Expected SpakeMsg"

abbrev pub recv_expect_spake : Talk Bytes
recv_expect_spake = ask "recv SpakeMsg" expect_spake

abbrev pub expect_confirm : SyncMessage → Talk Bytes
expect_confirm (pair_confirm hmac) = done hmac
expect_confirm other = fault "Expected PairConfirm"

abbrev pub recv_expect_confirm : Talk Bytes
recv_expect_confirm = ask "recv PairConfirm" expect_confirm

abbrev pub expect_key_exchange : SyncMessage → Talk Bytes
expect_key_exchange (pair_key_exchange encrypted_public_key) = done encrypted_public_key
expect_key_exchange other = fault "Expected PairKeyExchange"

abbrev pub recv_expect_key_exchange : Talk Bytes
recv_expect_key_exchange = ask "recv PairKeyExchange" expect_key_exchange

abbrev pub expect_accept : SyncMessage → Talk (Bytes × Bytes)
expect_accept (pair_accept device_id device_name) = done (device_id, device_name)
expect_accept (pair_reject reason) = fault "Rejected"
expect_accept other = fault "Expected PairAccept"

abbrev pub expect_complete : SyncMessage → Talk (Unit {0})
expect_complete pair_complete = done tt
expect_complete other = fault "Expected PairComplete"

module _ (crypto : PairCrypto) where
  open crypto use {start_a, start_b, finish, hmac, encrypt, decrypt, sha256}

  abbrev pub fingerprint_from_public_key : Bytes → Bytes
  fingerprint_from_public_key public_key = hex_encode (take 8 (sha256 public_key))

  abbrev pub compute_hmac : Bytes → Bytes
  compute_hmac shared_key = hmac shared_key confirm_label

  abbrev pub with_nonce : Bytes → Result Bytes → Result Bytes
  with_nonce nonce (ok ciphertext) = ok (nonce ++ ciphertext)
  with_nonce nonce (err e) = err e

  unfoldable pub encrypt_public_key : Bytes → Bytes → Bytes → Result Bytes
  encrypt_public_key nonce shared_key pubkey =
      if ltb (length shared_key) 32
      then err "shared key too short"
      else with_nonce nonce (encrypt (take 32 shared_key) nonce pubkey)

  unfoldable pub decrypt_public_key : Bytes → Bytes → Result Bytes
  decrypt_public_key shared_key bytes =
      if ltb (length bytes) 24
      then err "encrypted data too short"
      else (if ltb (length shared_key) 32
          then err "shared key too short"
          else decrypt (take 32 shared_key) (take 24 bytes) (drop 24 bytes))

  abbrev pub require : Bool → String → Talk (Unit {0})
  require true e = done tt
  require false e = fault e

  abbrev pub pair_result : Bytes × Bytes → Bytes → PairResult
  pair_result (id, name) peer_noise_pk = record {
    device_id = id;
    device_name = name;
    noise_public_key = peer_noise_pk;
    fingerprint = fingerprint_from_public_key peer_noise_pk;
  }

  -- From step 8 on, with the shared key.
  abbrev pub initiator_keys : Bytes → Device → Bytes × Bytes → Bytes → Talk PairResult
  initiator_keys nonce own peer shared_key = do
    encrypted_pk ← of_result (encrypt_public_key nonce shared_key own.noise_public_key)
    tell (pair_key_exchange encrypted_pk) (done tt)
    peer_encrypted_pk ← recv_expect_key_exchange
    peer_noise_pk ← of_result (decrypt_public_key shared_key peer_encrypted_pk)
    tell pair_complete (done tt)
    ask "recv complete" expect_complete
    done (pair_result peer peer_noise_pk)

  -- From step 7 on.
  abbrev pub initiator_confirm : Bytes → Device → Bytes × Bytes → Bytes → Talk PairResult
  initiator_confirm nonce own peer shared_key = do
    tell (pair_confirm (compute_hmac shared_key)) (done tt)
    peer_hmac ← recv_expect_confirm
    require (list_beq peer_hmac (compute_hmac shared_key)) "Wrong code"
    initiator_keys nonce own peer shared_key

  unfoldable pub run_initiator : Bytes → Bytes → Bytes → Device → Talk PairResult
  run_initiator secret nonce code own = do
    tell (pair_request own.device_id own.device_name) (done tt)
    peer ← ask "recv accept" expect_accept
    tell (spake_msg (start_a code secret).1) (done tt)
    peer_spake_msg ← recv_expect_spake
    shared_key ← of_result (finish (start_a code secret).0 peer_spake_msg)
    initiator_confirm nonce own peer shared_key

  -- From step 7 on, with the shared key.
  abbrev pub responder_keys : Bytes → Device → Bytes × Bytes → Bytes → Talk PairResult
  responder_keys nonce own peer shared_key = do
    init_encrypted_pk ← recv_expect_key_exchange
    peer_noise_pk ← of_result (decrypt_public_key shared_key init_encrypted_pk)
    encrypted_pk ← of_result (encrypt_public_key nonce shared_key own.noise_public_key)
    tell (pair_key_exchange encrypted_pk) (done tt)
    ask "recv complete" expect_complete
    tell pair_complete (done tt)
    done (pair_result peer peer_noise_pk)

  -- From step 6 on.
  abbrev pub responder_confirm : Bytes → Device → Bytes × Bytes → Bytes → Talk PairResult
  responder_confirm nonce own peer shared_key = do
    init_hmac ← recv_expect_confirm
    require (list_beq init_hmac (compute_hmac shared_key)) "Wrong code"
    tell (pair_confirm (compute_hmac shared_key)) (done tt)
    responder_keys nonce own peer shared_key

  -- The listener has read the request, and with it the peer's id and name.
  unfoldable pub run_responder : Bytes → Bytes → Bytes → Device → Bytes × Bytes → Talk PairResult
  run_responder secret nonce code own peer = do
    tell (pair_accept own.device_id own.device_name) (done tt)
    init_spake_msg ← recv_expect_spake
    tell (spake_msg (start_b code secret).1) (done tt)
    shared_key ← of_result (finish (start_b code secret).0 init_spake_msg)
    responder_confirm nonce own peer shared_key
