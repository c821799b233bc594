-- ===== src/Vault/Kept.antt =====
-- The commands on the rows of the vault, against its invariant.
use bushido.Prelude.{
  ℕ, ◌≡◌, subst, [], ◌∷◌, ◌++◌, All-append, Option, none, some, none-ne-some, Bytes, ok,
}
use bushido.Prelude.Table.{list_eq}
use bushido.Prelude.Io.{pure}
use bushido.Vault.State.{Row, Crypto, open_db, encrypt_password, decrypt_with}
use bushido.Vault.Methods.{Yields, Anything, Keeps, bind-Yields, then-Keeps, access-Yields}
use bushido.Vault.Commands.{
  update_row, delete_row, update_where, vault_lock, new_row, vault_save_entry, vault_get_entries,
  list_rows, vault_delete_entry, update_password, update_username, update_notes, vault_update_entry,
}
use bushido.Vault.Readable.{
  CryptoLaws, IsReadable, IsValid, moves, open_db-Keeps, change-Keeps, update_row-IsReadable,
  delete_row-IsReadable, encrypt_password-reads,
}

module _ (crypto : Crypto) where
  abbrev Sealed : Bytes → Bytes × Bytes → Type 0
  Sealed k sealed = (p : Bytes) × (decrypt_with crypto k sealed.0 sealed.1 ≡ ok p)

  seal-Yields :
      (laws : CryptoLaws crypto) (k nonce p : Bytes)
      → crypto.from_utf8 p ≡ ok p
      → Yields (IsValid crypto k) (Sealed k) (λ v. (encrypt_password crypto nonce p v, v))
  seal-Yields laws k nonce p text v valid = (
    valid,
    λ sealed e.
        let (key, has, reads) =
          encrypt_password-reads crypto laws nonce p v sealed.0 sealed.1 text e in
        (p, subst (λ k. decrypt_with crypto k sealed.0 sealed.1 ≡ ok p) (valid.key key has) reads),
  )

  pub save_entry-Keeps :
      (laws : CryptoLaws crypto) (k nonce id : Bytes) (now : ℕ) (domain username password : Bytes)
      (notes : Option Bytes)
      → crypto.from_utf8 password ≡ ok password
      → Keeps
          (IsValid crypto k)
          (vault_save_entry crypto nonce id now domain username password notes)
  unfolding vault_save_entry
  save_entry-Keeps laws k nonce id now domain username password notes text =
      bind-Yields (IsValid crypto k) (Sealed k) Anything _ _
        (seal-Yields laws k nonce password text)
        (λ sealed reads. then-Keeps (IsValid crypto k) open_db _ (open_db-Keeps crypto k) (
          then-Keeps (IsValid crypto k) _ (pure id)
            (change-Keeps crypto k
              (λ rows. rows ++ (new_row crypto id now domain username notes sealed ∷ []))
              (λ rows h. All-append (IsReadable crypto k) rows _ h (reads, tt)))
            (λ v valid. (valid, λ a e. tt))))

  update_where-Keeps :
      (k id : Bytes) (f : Row → Row)
      → ((row : Row) → IsReadable crypto k row → IsReadable crypto k (f row))
      → Keeps (IsValid crypto k) (update_where id f)
  unfolding update_where
  update_where-Keeps k id f keeps =
      change-Keeps crypto k (update_row id f) (update_row-IsReadable crypto k id f keeps)

  nothing-Keeps : (k : Bytes) → Keeps (IsValid crypto k) (pure tt)
  nothing-Keeps k v valid = (valid, λ a e. tt)

  abbrev pub IsText : Option Bytes → Type 0
  IsText none = Unit {0}
  IsText (some p) = crypto.from_utf8 p ≡ ok p

  update_password-Keeps :
      (laws : CryptoLaws crypto) (k nonce id : Bytes) (now : ℕ) (password : Option Bytes)
      → IsText password
      → Keeps (IsValid crypto k) (update_password crypto nonce id now password)
  update_password-Keeps laws k nonce id now none text = nothing-Keeps k
  update_password-Keeps laws k nonce id now (some p) text =
      bind-Yields (IsValid crypto k) (Sealed k) Anything _ _ (seal-Yields laws k nonce p text)
        (λ sealed reads. update_where-Keeps k id _ (λ row h. reads))

  update_username-Keeps :
      (k id : Bytes) (now : ℕ) (username : Option Bytes)
      → Keeps (IsValid crypto k) (update_username crypto id now username)
  update_username-Keeps k id now none = nothing-Keeps k
  update_username-Keeps k id now (some u) = update_where-Keeps k id _ (λ row h. h)

  update_notes-Keeps :
      (k id : Bytes) (now : ℕ) (notes : Option Bytes)
      → Keeps (IsValid crypto k) (update_notes crypto id now notes)
  update_notes-Keeps k id now none = nothing-Keeps k
  update_notes-Keeps k id now (some n) = update_where-Keeps k id _ (λ row h. h)

  pub update_entry-Keeps :
      (laws : CryptoLaws crypto) (k nonce : Bytes) (now : ℕ) (id : Bytes)
      (username password notes : Option Bytes)
      → IsText password
      → Keeps (IsValid crypto k) (vault_update_entry crypto nonce now id username password notes)
  unfolding vault_update_entry
  update_entry-Keeps laws k nonce now id username password notes text =
      then-Keeps (IsValid crypto k) open_db _ (open_db-Keeps crypto k) (
        then-Keeps (IsValid crypto k) (update_password crypto nonce id now password) _
          (update_password-Keeps laws k nonce id now password text)
          (then-Keeps (IsValid crypto k) (update_username crypto id now username) _
            (update_username-Keeps k id now username) (update_notes-Keeps k id now notes)))

  pub delete_entry-Keeps : (k id : Bytes) → Keeps (IsValid crypto k) (vault_delete_entry crypto id)
  unfolding vault_delete_entry
  delete_entry-Keeps k id =
      then-Keeps (IsValid crypto k) open_db _ (open_db-Keeps crypto k)
        (change-Keeps crypto k (delete_row id) (delete_row-IsReadable crypto k id))

  pub lock-Keeps : (k : Bytes) → Keeps (IsValid crypto k) (vault_lock crypto)
  unfolding vault_lock
  lock-Keeps k v valid = (
    record { rows = valid.rows; key = λ k' e. absurd (none-ne-some e); unlocks = valid.unlocks },
    λ a e. tt,
  )

  pub get_entries-Keeps :
      (k : Bytes) (domain : Option Bytes)
      → Keeps (IsValid crypto k) (vault_get_entries crypto domain)
  unfolding vault_get_entries
  get_entries-Keeps k domain = then-Keeps (IsValid crypto k) open_db _ (open_db-Keeps crypto k) (
      access-Yields (IsValid crypto k) Anything (list_rows crypto domain) (moves crypto k)
        (λ v valid. (valid, λ a e. tt)))
