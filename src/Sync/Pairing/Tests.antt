-- ===== src/Sync/Pairing/Tests.antt =====
-- Two devices that pair, with a key that is the code filled up to 32 bytes.
use bushido.Prelude.{
  ℕ, ◌≡◌, ◌≢◌, refl, ap, List, [], ◌∷◌, ◌++◌, Bytes, codes, length-append, length-take, take, ok,
  arith,
}
use bushido.Sync.Talk.{done, fault}
use bushido.Sync.Talk.Pair.{Side, on_left, on_right, schedule, rounds, start}
use bushido.Sync.Pairing.{PairCrypto, Device, pair_result, run_initiator, compute_hmac}
use bushido.Sync.Pairing.Laws.{
  PairLaws, listen, learned, ended, pairing-completes, pairing-wrong_code,
}
use bushido.Sync.Pairing.Reflection.{reflect, sides, pairing-reflected}

abbrev zeros : Bytes
zeros =
    0 ∷ 0 ∷ 0 ∷ 0 ∷ 0 ∷ 0 ∷ 0 ∷ 0 ∷ 0 ∷ 0 ∷ 0 ∷ 0 ∷ 0 ∷ 0 ∷ 0 ∷ 0 ∷ 0 ∷ 0 ∷ 0 ∷ 0 ∷ 0 ∷ 0 ∷ 0 ∷ 0
    ∷ 0 ∷ 0 ∷ 0 ∷ 0 ∷ 0 ∷ 0 ∷ 0 ∷ 0 ∷ []

abbrev key_of : Bytes → Bytes
key_of code = take 32 (code ++ zeros)

abbrev toy : PairCrypto
toy = record {
  SpakeState = Bytes;
  start_a = λ code secret. (code, secret);
  start_b = λ code secret. (code, secret);
  finish = λ code msg. ok (key_of code);
  hmac = λ key bytes. key;
  encrypt = λ key nonce p. ok p;
  decrypt = λ key nonce c. ok c;
  sha256 = λ bytes. bytes;
}

toy-PairLaws : PairLaws toy
toy-PairLaws = record {
  agree = λ code secret_a secret_b. (
    key_of code,
    refl,
    refl,
    omega (arith, length-take 32 (code ++ zeros), length-append code zeros),
  );
  decrypt-encrypt = λ key nonce p len_k len_n. (p, refl, refl);
}

abbrev nonce : Bytes
nonce = take 24 zeros

abbrev desk : Device
desk = record { device_id = codes "d1"; device_name = codes "Desk"; noise_public_key = 1 ∷ 2 ∷ [] }

abbrev laptop : Device
laptop = record {
  device_id = codes "l1";
  device_name = codes "Laptop";
  noise_public_key = 3 ∷ 4 ∷ [];
}

abbrev some_moves : List Side
some_moves = on_right ∷ on_left ∷ on_left ∷ on_right ∷ []

pairing-completes_example :
    schedule (rounds 20) (
      schedule some_moves (
        start
          (run_initiator toy (5 ∷ []) nonce (codes "123456") desk)
          (listen toy (6 ∷ []) nonce (codes "123456") laptop)))
    ≡ ended toy (done (learned toy laptop)) (done (learned toy desk))
pairing-completes_example =
    pairing-completes toy toy-PairLaws (codes "123456") (5 ∷ []) (6 ∷ []) nonce nonce desk laptop
      some_moves refl refl

abbrev sixth : Bytes → ℕ
sixth (a ∷ b ∷ c ∷ d ∷ e ∷ f ∷ rest) = f
sixth other = 0

keys-differ :
    compute_hmac toy (key_of (codes "123456")) ≢ compute_hmac toy (key_of (codes "123457"))
keys-differ e = let digits : ◌≡◌ {A = ℕ} 54 55 = ap sixth e in omega arith

pairing-wrong_code_example :
    schedule (rounds 11) (
      schedule some_moves (
        start
          (run_initiator toy (5 ∷ []) nonce (codes "123456") desk)
          (listen toy (6 ∷ []) nonce (codes "123457") laptop)))
    ≡ ended toy (fault "recv PairConfirm") (fault "Wrong code")
pairing-wrong_code_example =
    pairing-wrong_code toy (codes "123456") (codes "123457") (5 ∷ []) (6 ∷ []) nonce nonce desk
      laptop (key_of (codes "123456")) (key_of (codes "123457")) some_moves refl refl keys-differ

pairing-reflected_example :
    schedule (rounds 20) (
      schedule some_moves (
        start
          (run_initiator toy (5 ∷ []) nonce (codes "123456") desk)
          (reflect (codes "x") (codes "Stranger") (9 ∷ []))))
    ≡ sides toy (done (pair_result toy (codes "x", codes "Stranger") (1 ∷ 2 ∷ []))) (done tt)
pairing-reflected_example =
    pairing-reflected toy toy-PairLaws (codes "123456") (5 ∷ []) nonce desk (codes "x")
      (codes "Stranger") (9 ∷ []) (key_of (codes "123456")) some_moves refl refl refl
