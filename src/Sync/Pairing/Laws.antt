-- ===== src/Sync/Pairing/Laws.antt =====
-- Two devices that pair, in src-tauri/src/sync/pairing.rs: with the same code and with two codes.
use bushido.Prelude.{
  ◌≡◌, ◌≢◌, refl, sym, ap, ◌∙◌, ◌⊎◌, inl, inr, true, false, List, [], ◌∷◌, ◌++◌, Bytes, length,
  length-append, length-take, take, drop, take-append, drop-append, le→not-ltb, Bool-cases, ok,
  arith,
}
use bushido.Prelude.Table.{list_beq, list_beq_iff}
use bushido.Sync.Protocol.{SyncMessage, pair_request}
use bushido.Sync.Talk.{Talk, done, fault, ask}
use bushido.Sync.Talk.Pair.{Sides, Side, on_left, on_right, schedule, rounds, start, move, advance}
use bushido.Sync.Talk.Pair.Order.{any_order, schedule-append}
use bushido.Sync.Pairing.{
  PairResult, PairCrypto, Device, encrypt_public_key, decrypt_public_key, compute_hmac, pair_result,
  initiator_keys, responder_keys, run_initiator, run_responder,
}

-- What the libraries document: SPAKE2 gives both sides one key of 32 bytes if they have one code, and
-- the cipher encrypts under keys of 32 and nonces of 24 bytes, to what it decrypts.
pub record PairLaws (crypto : PairCrypto) : Type 0 where
  pub agree :
      (code secret_a secret_b : Bytes)
      → (k : Bytes) × (crypto.finish
            (crypto.start_a code secret_a).0
            (crypto.start_b code secret_b).1
          ≡ ok k)
        × (crypto.finish (crypto.start_b code secret_b).0 (crypto.start_a code secret_a).1 ≡ ok k)
        × (length k ≡ 32)
  pub decrypt-encrypt :
      (key nonce p : Bytes)
      → length key ≡ 32
      → length nonce ≡ 24
      → (c : Bytes) × (crypto.encrypt key nonce p ≡ ok c) × (crypto.decrypt key nonce c ≡ ok p)

module _ (crypto : PairCrypto) where
  -- The listener of the responding device reads the request and answers it.
  abbrev pub answer : Bytes → Bytes → Bytes → Device → SyncMessage → Talk PairResult
  answer secret nonce code own (pair_request id name) =
      run_responder crypto secret nonce code own (id, name)
  answer secret nonce code own other = fault "expected PairRequest"

  abbrev pub listen : Bytes → Bytes → Bytes → Device → Talk PairResult
  listen secret nonce code own = ask "recv request" (answer secret nonce code own)

  -- What one device learns of another.
  abbrev pub learned : Device → PairResult
  learned d = pair_result crypto (d.device_id, d.device_name) d.noise_public_key

  -- An encrypted key is decrypted with the same shared key.
  pub key_roundtrip :
      (laws : PairLaws crypto) (nonce k pk : Bytes)
      → length k ≡ 32
      → length nonce ≡ 24
      → (e : Bytes) × (encrypt_public_key crypto nonce k pk ≡ ok e)
        × (decrypt_public_key crypto k e ≡ ok pk)
  unfolding encrypt_public_key decrypt_public_key
  key_roundtrip laws nonce k pk len_k len_n =
      let size : length (take 32 k) ≡ 32 = omega (arith, length-take 32 k) in
      let (c, encrypts, decrypts) = laws.decrypt-encrypt (take 32 k) nonce pk size len_n in
      let front : take 24 (nonce ++ c) ≡ nonce =
        ap (λ n. take n (nonce ++ c)) (sym len_n) ∙ take-append nonce c in
      let back : drop 24 (nonce ++ c) ≡ c =
        ap (λ n. drop n (nonce ++ c)) (sym len_n) ∙ drop-append nonce c in
      let long = le→not-ltb 32 (length k) (omega arith) in
      let whole = le→not-ltb 24 (length (nonce ++ c)) (omega (arith, length-append nonce c)) in
      (nonce ++ c, rw (long, encrypts) refl, rw (whole, long) (rw (front, back) decrypts))

  abbrev until_keys : List Side
  until_keys =
      on_left ∷ on_right ∷ on_right ∷ on_left ∷ on_left ∷ on_right ∷ on_right ∷ on_left ∷ on_left
      ∷ on_right ∷ on_right ∷ on_left ∷ []

  abbrev keys : List Side
  keys = on_left ∷ on_right ∷ on_right ∷ on_left ∷ on_left ∷ on_right ∷ on_right ∷ on_left ∷ []

  abbrev pub ended : Talk PairResult → Talk PairResult → Sides PairResult PairResult
  ended left right = record { left = left; right = right; to_left = []; to_right = [] }

  -- Up to the confirmed code.
  until_keys-run :
      (code secret_a secret_b nonce_a nonce_b : Bytes) (a b : Device) (k : Bytes)
      → crypto.finish (crypto.start_a code secret_a).0 (crypto.start_b code secret_b).1 ≡ ok k
      → crypto.finish (crypto.start_b code secret_b).0 (crypto.start_a code secret_a).1 ≡ ok k
      → list_beq (compute_hmac crypto k) (compute_hmac crypto k) ≡ true
      → schedule until_keys
          (start (run_initiator crypto secret_a nonce_a code a) (listen secret_b nonce_b code b))
        ≡ ended
            (initiator_keys crypto nonce_a a (b.device_id, b.device_name) k)
            (responder_keys crypto nonce_b b (a.device_id, a.device_name) k)
  unfolding schedule move advance run_initiator run_responder
  until_keys-run code secret_a secret_b nonce_a nonce_b a b k fin_a fin_b same =
      rw (fin_a, fin_b) (rw same (rw same refl))

  -- From there to the end.
  keys-run :
      (nonce_a nonce_b : Bytes) (a b : Device) (k e_a e_b : Bytes)
      → encrypt_public_key crypto nonce_a k a.noise_public_key ≡ ok e_a
      → decrypt_public_key crypto k e_a ≡ ok a.noise_public_key
      → encrypt_public_key crypto nonce_b k b.noise_public_key ≡ ok e_b
      → decrypt_public_key crypto k e_b ≡ ok b.noise_public_key
      → schedule keys (
          ended
            (initiator_keys crypto nonce_a a (b.device_id, b.device_name) k)
            (responder_keys crypto nonce_b b (a.device_id, a.device_name) k))
        ≡ ended (done (learned b)) (done (learned a))
  unfolding schedule move advance
  keys-run nonce_a nonce_b a b k e_a e_b enc_a dec_a enc_b dec_b =
      rw enc_a (rw dec_a (rw enc_b (rw dec_b refl)))

  pairing-run :
      (laws : PairLaws crypto) (code secret_a secret_b nonce_a nonce_b : Bytes) (a b : Device)
      → length nonce_a ≡ 24
      → length nonce_b ≡ 24
      → schedule
          (until_keys ++ keys)
          (start (run_initiator crypto secret_a nonce_a code a) (listen secret_b nonce_b code b))
        ≡ ended (done (learned b)) (done (learned a))
  pairing-run laws code secret_a secret_b nonce_a nonce_b a b len_a len_b =
      let (k, agree_a, agree_b, len_k) = laws.agree code secret_a secret_b in
      let (e_a, enc_a, dec_a) = key_roundtrip laws nonce_a k a.noise_public_key len_k len_a in
      let (e_b, enc_b, dec_b) = key_roundtrip laws nonce_b k b.noise_public_key len_k len_b in
      let same = (list_beq_iff (compute_hmac crypto k) (compute_hmac crypto k)).1 refl in
      schedule-append until_keys keys _
      ∙ ap (schedule keys)
          (until_keys-run code secret_a secret_b nonce_a nonce_b a b k agree_a agree_b same)
      ∙ keys-run nonce_a nonce_b a b k e_a e_b enc_a dec_a enc_b dec_b

  -- With one code, whatever moves the two devices have made, 20 rounds of both bring the pairing to
  -- its end, where each has the id, the name, the public key and the fingerprint of the other.
  pub pairing-completes :
      (laws : PairLaws crypto) (code secret_a secret_b nonce_a nonce_b : Bytes) (a b : Device)
      (moves : List Side)
      → length nonce_a ≡ 24
      → length nonce_b ≡ 24
      → schedule (rounds 20) (
          schedule moves
            (start (run_initiator crypto secret_a nonce_a code a) (listen secret_b nonce_b code b)))
        ≡ ended (done (learned b)) (done (learned a))
  pairing-completes laws code secret_a secret_b nonce_a nonce_b a b moves len_a len_b =
      any_order (until_keys ++ keys) moves _ _
        (pairing-run laws code secret_a secret_b nonce_a nonce_b a b len_a len_b) refl refl

  abbrev half_pairing : List Side
  half_pairing =
      on_left ∷ on_right ∷ on_right ∷ on_left ∷ on_left ∷ on_right ∷ on_right ∷ on_left ∷ on_left
      ∷ on_right ∷ on_left ∷ []

  wrong-run :
      (code_a code_b secret_a secret_b nonce_a nonce_b : Bytes) (a b : Device) (k_a k_b : Bytes)
      → crypto.finish (crypto.start_a code_a secret_a).0 (crypto.start_b code_b secret_b).1 ≡ ok k_a
      → crypto.finish (crypto.start_b code_b secret_b).0 (crypto.start_a code_a secret_a).1 ≡ ok k_b
      → list_beq (compute_hmac crypto k_a) (compute_hmac crypto k_b) ≡ false
      → schedule half_pairing (
          start (run_initiator crypto secret_a nonce_a code_a a) (listen secret_b nonce_b code_b b))
        ≡ ended (fault "recv PairConfirm") (fault "Wrong code")
  unfolding schedule move advance run_initiator run_responder
  wrong-run code_a code_b secret_a secret_b nonce_a nonce_b a b k_a k_b fin_a fin_b differ =
      rw (fin_a, fin_b) (rw differ refl)

  -- Where SPAKE2 ends with two keys whose confirmations differ, as it does for two codes: whatever
  -- moves the two devices have made, 11 rounds of both bring the pairing to its end, where the
  -- responder refuses the code, the initiator gets no confirmation, and no message is left.
  pub pairing-wrong_code :
      (code_a code_b secret_a secret_b nonce_a nonce_b : Bytes) (a b : Device) (k_a k_b : Bytes)
      (moves : List Side)
      → crypto.finish (crypto.start_a code_a secret_a).0 (crypto.start_b code_b secret_b).1 ≡ ok k_a
      → crypto.finish (crypto.start_b code_b secret_b).0 (crypto.start_a code_a secret_a).1 ≡ ok k_b
      → compute_hmac crypto k_a ≢ compute_hmac crypto k_b
      → schedule (rounds 11) (
          schedule moves (
            start
              (run_initiator crypto secret_a nonce_a code_a a)
              (listen secret_b nonce_b code_b b)))
        ≡ ended (fault "recv PairConfirm") (fault "Wrong code")
  pairing-wrong_code code_a code_b secret_a secret_b nonce_a nonce_b a b k_a k_b moves fin_a fin_b
        differ =
      any_order half_pairing moves _ _
        (wrong-run code_a code_b secret_a secret_b nonce_a nonce_b a b k_a k_b fin_a fin_b
          (refuses (Bool-cases (list_beq (compute_hmac crypto k_a) (compute_hmac crypto k_b)))))
        refl refl
    where
      refuses :
          (list_beq (compute_hmac crypto k_a) (compute_hmac crypto k_b) ≡ true)
            ⊎ (list_beq (compute_hmac crypto k_a) (compute_hmac crypto k_b) ≡ false)
          → list_beq (compute_hmac crypto k_a) (compute_hmac crypto k_b) ≡ false
      refuses (inl same) = absurd (differ ((list_beq_iff _ _).0 same))
      refuses (inr other) = other
