-- ===== src/Vault/Listing.antt =====
-- Saving an entry of the vault, and listing the entries.
use bushido.Prelude.{
  ℕ, ◌≡◌, refl, ap, subst, List, [], ◌∷◌, ◌++◌, map, Option, none, some, Bytes, ok, Bool, true,
}
use mathlib.Core.List.Perm
use mathlib.Core.List.{Mem, mem-cons_self, mem-append_right, mem-map_of_mem, Perm}
use bushido.Vault.State.{
  VaultState, VaultEntry, Row, Crypto, open_db, get_key, encrypt_password, decrypt_password,
  decrypt_with,
}
use bushido.Vault.Commands.{vault_save_entry, vault_get_entries, entry_of, new_row}
use bushido.Vault.Readable.{CryptoLaws}

abbrev with_row : VaultState → Row → VaultState
with_row v row = record v { vault_entries = v.vault_entries ++ (row ∷ []) }

module _ (crypto : Crypto) where
  abbrev sealed_row : Bytes → Bytes → ℕ → Bytes → Bytes → Option Bytes → Bytes → Row
  sealed_row nonce id now domain username notes enc =
      new_row crypto id now domain username notes (enc, nonce)

  save-ok :
      (v : VaultState) (nonce id : Bytes) (now : ℕ) (domain username password : Bytes)
      (notes : Option Bytes) (key c w : Bytes)
      → v.failures ≡ []
      → v.derived_key ≡ some key
      → crypto.encrypt key nonce password ≡ ok c
      → crypto.dpapi_encrypt c ≡ ok w
      → vault_save_entry crypto nonce id now domain username password notes v
        ≡ (ok id, with_row v (sealed_row nonce id now domain username notes w))
  unfolding vault_save_entry open_db encrypt_password get_key
  save-ok v nonce id now domain username password notes key c w sound unlocked encrypts wraps =
      rw unlocked (rw encrypts (rw wraps (rw sound refl)))

  get-ok :
      (v : VaultState)
      → v.failures ≡ []
      → vault_get_entries crypto none v
        ≡ (ok (map (entry_of crypto v) (crypto.order_by true v.vault_entries)), v)
  unfolding vault_get_entries open_db
  get-ok v sound = rw sound refl

  reads :
      (laws : CryptoLaws crypto) (v : VaultState) (nonce password key c w : Bytes)
      → v.derived_key ≡ some key
      → crypto.encrypt key nonce password ≡ ok c
      → crypto.dpapi_encrypt c ≡ ok w
      → crypto.from_utf8 password ≡ ok password
      → decrypt_password crypto w nonce v ≡ ok password
  unfolding decrypt_password decrypt_with get_key
  reads laws v nonce password key c w unlocked encrypts wraps text = rw unlocked (
      rw (laws.dpapi_decrypt-dpapi_encrypt c w wraps)
        (rw (laws.decrypt-encrypt key nonce password c encrypts) text))

  entry_of-row :
      (v : VaultState) (row : Row) (password : Bytes)
      → decrypt_password crypto row.password_enc row.nonce v ≡ ok password
      → entry_of crypto v row ≡ record {
        id = row.id;
        domain = row.domain;
        username = row.username;
        password = password;
        notes = row.notes;
        created_at = row.created_at;
        updated_at = row.updated_at;
      }
  unfolding entry_of
  entry_of-row v row password e = rw e refl

  -- A password that is text, saved in an unlocked vault on a sound database where the cipher and the
  -- system's store succeed: the command returns the id, and all entries that are listed afterwards
  -- contain it with its domain, user name, notes and times, and the password as it was given.
  pub save_then_get :
      (laws : CryptoLaws crypto)
      (perm : (b : Bool) (rows : List Row) → Perm (crypto.order_by b rows) rows) (v : VaultState)
      (nonce id : Bytes) (now : ℕ) (domain username password notes key c w : Bytes)
      → v.failures ≡ []
      → v.derived_key ≡ some key
      → crypto.encrypt key nonce password ≡ ok c
      → crypto.dpapi_encrypt c ≡ ok w
      → crypto.from_utf8 password ≡ ok password
      → let saved = vault_save_entry crypto nonce id now domain username password (some notes) v in
        (saved.0 ≡ ok id)
        × ((entries : List VaultEntry) × ((vault_get_entries crypto none saved.1).0 ≡ ok entries)
            × Mem
                (record {
                  id = id;
                  domain = domain;
                  username = username;
                  password = password;
                  notes = notes;
                  created_at = now;
                  updated_at = now;
                })
                entries)
  save_then_get laws perm v nonce id now domain username password notes key c w sound unlocked
        encrypts wraps text =
      let row = sealed_row nonce id now domain username (some notes) w in
      let v' = with_row v row in
      let saves =
        save-ok v nonce id now domain username password (some notes) key c w sound unlocked encrypts
          wraps in
      let shown =
        entry_of-row v' row password
          (reads laws v' nonce password key c w unlocked encrypts wraps text) in
      let held =
        (Perm.mem_iff (perm true v'.vault_entries)).1
          (mem-append_right v.vault_entries mem-cons_self) in
      rw saves (
        refl,
        (
          map (entry_of crypto v') (crypto.order_by true v'.vault_entries),
          ap (λ r. r.0) (get-ok v' sound),
          subst (λ e. Mem e (map (entry_of crypto v') (crypto.order_by true v'.vault_entries)))
              shown (mem-map_of_mem (entry_of crypto v') held),
        ),
      )
