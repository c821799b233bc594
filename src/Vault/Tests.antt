-- ===== src/Vault/Tests.antt =====
-- The vault with ciphers that put the key and the nonce in front.
use bushido.Prelude.{
  ◌≡◌, refl, sym, ap, ◌∙◌, List, [], ◌∷◌, ◌++◌, none, some, of_some, Bytes, codes, length, take,
  drop, take-append, drop-append, Result, ok, err, true, false, arith, if◌then◌else◌,
}
use mathlib.Core.List.Perm
use mathlib.Core.List.{Mem}
use bushido.Prelude.Table.{list_beq, list_beq_iff, list_eq}
use bushido.Prelude.Io.{◌>>◌}
use bushido.Vault.State.{VaultState, VaultEntry, Row, Crypto, decrypt_with, master_hash, salt_key}
use bushido.Vault.Commands.{
  vault_setup, vault_unlock, vault_lock, vault_save_entry, vault_get_entries,
}
use bushido.Vault.Readable.{CryptoLaws, IsValid}
use bushido.Vault.Runs.{
  Command, save, lock, unlock, update, delete, perform_all, perform_all-IsValid,
}
use bushido.Vault.Setup.{setup_lock_unlock, setup_interrupted}
use bushido.Vault.Listing.{save_then_get}

abbrev toy_decrypt : Bytes → Bytes → Bytes → Result Bytes
toy_decrypt key nonce c =
    let front = key ++ nonce in
    if list_beq (take (length front) c) front then ok (drop (length front) c) else err "decrypt"

abbrev toy : Crypto
toy = record {
  hash = λ p salt. ok p;
  parse = λ h. ok h;
  verify = λ p h. list_beq p h;
  derive = λ p salt. ok (p ++ salt);
  encrypt = λ key nonce p. ok ((key ++ nonce) ++ p);
  decrypt = toy_decrypt;
  dpapi_encrypt = λ b. ok b;
  dpapi_decrypt = λ b. ok b;
  text = λ b. b;
  from_utf8 = λ b. ok b;
  order_by = λ b rows. rows;
}

of_ok : {A : Type 0} {x y : A} → ok x ≡ ok y → x ≡ y
of_ok e = cc

toy-decrypt-encrypt :
    (key nonce p c : Bytes) → toy.encrypt key nonce p ≡ ok c → toy.decrypt key nonce c ≡ ok p
toy-decrypt-encrypt key nonce p c e =
    let same : (key ++ nonce) ++ p ≡ c = cc in
    rw (← same) (
      rw (take-append, drop-append) (rw ((list_beq_iff (key ++ nonce) (key ++ nonce)).1 refl) refl))

toy-CryptoLaws : CryptoLaws toy
toy-CryptoLaws = record {
  decrypt-encrypt = toy-decrypt-encrypt;
  dpapi_decrypt-dpapi_encrypt = λ c w e. sym e;
}

abbrev new_vault : VaultState
new_vault = record { vault_meta = []; vault_entries = []; derived_key = none; failures = [] }

abbrev unlocked_vault : VaultState
unlocked_vault = record {
  vault_meta = (master_hash, codes "password") ∷ (salt_key, codes "s") ∷ [];
  vault_entries = [];
  derived_key = some (codes "passwords");
  failures = [];
}

save_then_get_example :
    let saved =
      vault_save_entry toy
        (1 ∷ [])
        (codes "id")
        5
        (codes "a.org")
        (codes "me")
        (codes "pw")
        (some [])
        unlocked_vault in
    (saved.0 ≡ ok (codes "id"))
    × ((entries : List VaultEntry) × ((vault_get_entries toy none saved.1).0 ≡ ok entries)
        × Mem
            (record {
              id = codes "id";
              domain = codes "a.org";
              username = codes "me";
              password = codes "pw";
              notes = [];
              created_at = 5;
              updated_at = 5;
            })
            entries)
save_then_get_example =
    save_then_get toy toy-CryptoLaws (λ b rows. Perm.refl rows) unlocked_vault (1 ∷ []) (codes "id")
      5 (codes "a.org") (codes "me") (codes "pw") [] (codes "passwords")
      (codes "passwords" ++ (1 ∷ codes "pw")) (codes "passwords" ++ (1 ∷ codes "pw")) refl refl refl
      refl refl

unlocked_vault-IsValid : IsValid toy (codes "passwords") unlocked_vault
unlocked_vault-IsValid = record {
  rows = tt;
  key = λ k' e. sym (of_some e);
  unlocks = λ p h s parsed k' hash salt parses verifies derives.
      let same : p ≡ codes "password" =
        (list_beq_iff p parsed).0 verifies ∙ sym (of_ok parses) ∙ sym (of_some hash) in
      sym (of_ok derives)
      ∙ ap (λ q. q ++ s) same
      ∙ ap (λ t. codes "password" ++ t) (sym (of_some salt));
}

abbrev some_commands : List Command
some_commands =
    save (1 ∷ []) (codes "id") 5 (codes "a.org") (codes "me") (codes "pw") none
    ∷ lock
    ∷ unlock (codes "password")
    ∷ update (2 ∷ []) 6 (codes "id") none (some (codes "pw2")) none
    ∷ delete (codes "x")
    ∷ []

perform_all-IsValid_example :
    IsValid toy (codes "passwords") (perform_all toy some_commands unlocked_vault)
perform_all-IsValid_example =
    perform_all-IsValid toy toy-CryptoLaws (codes "passwords") some_commands unlocked_vault
      (refl, (tt, (tt, (refl, (tt, tt))))) unlocked_vault-IsValid

setup_lock_unlock_example :
    let locked = ((vault_setup toy (codes "s") (codes "password") >> vault_lock toy) new_vault).1 in
    ((vault_unlock toy (codes "password") locked).0 ≡ ok tt)
    × ((vault_unlock toy (codes "password") locked).1.derived_key ≡ some (codes "passwords"))
    × ((vault_unlock toy (codes "guess") locked).0 ≡ err "wrong password")
    × ((vault_unlock toy (codes "guess") locked).1.derived_key ≡ none)
setup_lock_unlock_example =
    setup_lock_unlock toy new_vault (codes "s") (codes "password") (codes "password")
      (codes "password") (codes "passwords") (codes "guess") (omega arith) refl refl refl refl refl
      refl refl

-- A row of the vault's, encrypted with its key.
abbrev old_row : Row
old_row = record {
  id = codes "id";
  domain = codes "a.org";
  username = codes "me";
  password_enc = codes "passwords" ++ (1 ∷ codes "pw");
  nonce = 1 ∷ [];
  notes = [];
  created_at = 5;
  updated_at = 5;
}

abbrev used_vault : VaultState
used_vault = record unlocked_vault { vault_entries = old_row ∷ [] }

old_row-readable :
    decrypt_with toy (codes "passwords") old_row.password_enc old_row.nonce ≡ ok (codes "pw")
unfolding decrypt_with
old_row-readable = refl

old_row-refused :
    decrypt_with toy (codes "newsecrett") old_row.password_enc old_row.nonce ≡ err "decrypt"
unfolding decrypt_with
old_row-refused = refl

abbrev failing_vault : VaultState
failing_vault = record unlocked_vault { failures = false ∷ false ∷ true ∷ [] }

setup_interrupted_example :
    let broken = (vault_setup toy (codes "t") (codes "newsecret") failing_vault).1 in
    ((vault_setup toy (codes "t") (codes "newsecret") failing_vault).0 ≡ err "db")
    × (vault_unlock toy (codes "newsecret") broken
        ≡ (ok tt, record broken { derived_key = some (codes "newsecrets") }))
    × ((vault_unlock toy (codes "password") broken).0 ≡ err "wrong password")
setup_interrupted_example =
    setup_interrupted toy failing_vault (codes "t") (codes "newsecret") (codes "password")
      (codes "newsecret") (codes "newsecret") (codes "s") (codes "newsecrets") (omega arith) refl
      refl refl refl refl refl refl
