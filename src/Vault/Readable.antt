-- ===== src/Vault/Readable.antt =====
-- The rows of the vault under its key.
use bushido.Prelude.{
  ◌≡◌, refl, Bool, true, false, List, [], ◌∷◌, All, Option, none, some, Bytes, if◌then◌else◌,
  Result, ok, err, ok_or,
}
use bushido.Prelude.Table.{lookup, list_beq, list_eq}
use bushido.Prelude.Io.{pure}
use bushido.Vault.State.{
  Row, VaultState, Crypto, access, modify, open_db, master_hash, salt_key, get_key,
  encrypt_password, decrypt_with, then_do,
}
use bushido.Vault.Methods.{Anything, Keeps, access-Yields}
use bushido.Vault.Commands.{update_row, delete_row}

-- What the libraries document: what is encrypted is decrypted with the same key and nonce, and what
-- the system has wrapped for the user it unwraps.
pub record CryptoLaws (crypto : Crypto) : Type 0 where
  pub decrypt-encrypt :
      (key nonce p c : Bytes)
      → crypto.encrypt key nonce p ≡ ok c
      → crypto.decrypt key nonce c ≡ ok p
  pub dpapi_decrypt-dpapi_encrypt :
      (c w : Bytes) → crypto.dpapi_encrypt c ≡ ok w → crypto.dpapi_decrypt w ≡ ok c

module _ (crypto : Crypto) where
  -- The password of a row is decrypted with the key `k`.
  abbrev pub IsReadable : Bytes → Row → Type 0
  IsReadable k row = (p : Bytes) × (decrypt_with crypto k row.password_enc row.nonce ≡ ok p)

  -- Every row is readable with `k`, which is the key in memory, if there is one, and the one that a
  -- right password gives.
  pub record IsValid (k : Bytes) (v : VaultState) : Type 0 where
    pub rows : All (IsReadable k) v.vault_entries
    pub key : (k' : Bytes) → v.derived_key ≡ some k' → k' ≡ k
    pub unlocks :
        (p h s parsed k' : Bytes)
        → lookup master_hash v.vault_meta ≡ some h
        → lookup salt_key v.vault_meta ≡ some s
        → crypto.parse (crypto.text h) ≡ ok parsed
        → crypto.verify p parsed ≡ true
        → crypto.derive p (crypto.text s) ≡ ok k'
        → k' ≡ k

  pub moves :
      (k : Bytes) (v : VaultState) (rest : List Bool)
      → IsValid k v
      → IsValid k (record v { failures = rest })
  moves k v rest valid = record { rows = valid.rows; key = valid.key; unlocks = valid.unlocks }

  pub open_db-Keeps : (k : Bytes) → Keeps (IsValid k) open_db
  unfolding open_db
  open_db-Keeps k =
      access-Yields (IsValid k) Anything (pure tt) (moves k) (λ v valid. (valid, λ a e. tt))

  -- Other rows in place of the old ones.
  pub change-Keeps :
      (k : Bytes) (f : List Row → List Row)
      → ((rows : List Row) → All (IsReadable k) rows → All (IsReadable k) (f rows))
      → Keeps (IsValid k) (access (modify (λ v. record v { vault_entries = f v.vault_entries })))
  change-Keeps k f readable =
      access-Yields (IsValid k) Anything
        (modify (λ v. record v { vault_entries = f v.vault_entries })) (moves k)
        (λ v valid. (
          record {
            rows = readable v.vault_entries valid.rows;
            key = valid.key;
            unlocks = valid.unlocks;
          },
          λ a e. tt,
        ))

  pub update_row-IsReadable :
      (k id : Bytes) (f : Row → Row)
      → ((row : Row) → IsReadable k row → IsReadable k (f row))
      → (rows : List Row) → All (IsReadable k) rows
      → All (IsReadable k) (update_row id f rows)
  update_row-IsReadable k id f keeps [] h = tt
  update_row-IsReadable k id f keeps (row ∷ rows) (first, h) =
      (go (list_beq row.id id), update_row-IsReadable k id f keeps rows h)
    where
      go : (b : Bool) → IsReadable k (if b then f row else row)
      go true = keeps row first
      go false = first

  pub delete_row-IsReadable :
      (k id : Bytes) (rows : List Row)
      → All (IsReadable k) rows
      → All (IsReadable k) (delete_row id rows)
  delete_row-IsReadable k id [] h = tt
  delete_row-IsReadable k id (row ∷ rows) (first, h) =
      go (list_beq row.id id) (delete_row-IsReadable k id rows h)
    where
      go :
          (b : Bool)
          → All (IsReadable k) (delete_row id rows)
          → All (IsReadable k) (if b then delete_row id rows else row ∷ delete_row id rows)
      go true rest = rest
      go false rest = (first, rest)

  then_do-eq-ok :
      {A B : Type 0} (r : Result A) (f : A → Result B) (b : B)
      → then_do crypto r f ≡ ok b
      → (a : A) × (r ≡ ok a) × (f a ≡ ok b)
  then_do-eq-ok (ok a) f b e = (a, refl, e)
  then_do-eq-ok (err x) f b e = cc

  key-eq-ok : (o : Option Bytes) (key : Bytes) → ok_or o "vault locked" ≡ ok key → o ≡ some key
  key-eq-ok none key e = cc
  key-eq-ok (some k) key e = cc

  -- What `encrypt_password` returns is decrypted with the key in memory.
  pub encrypt_password-reads :
      (laws : CryptoLaws crypto) (nonce p : Bytes) (v : VaultState) (enc n : Bytes)
      → crypto.from_utf8 p ≡ ok p
      → encrypt_password crypto nonce p v ≡ ok (enc, n)
      → (key : Bytes) × (v.derived_key ≡ some key) × (decrypt_with crypto key enc n ≡ ok p)
  unfolding encrypt_password decrypt_with get_key
  encrypt_password-reads laws nonce p v enc n text e =
      let (key, has, e₁) = then_do-eq-ok (ok_or v.derived_key "vault locked") _ (enc, n) e in
      let (c, encrypts, e₂) = then_do-eq-ok (crypto.encrypt key nonce p) _ (enc, n) e₁ in
      let (w, wraps, e₃) = then_do-eq-ok (crypto.dpapi_encrypt c) _ (enc, n) e₂ in
      let same_enc : w ≡ enc = cc in
      let same_nonce : nonce ≡ n = cc in
      (
        key,
        key-eq-ok v.derived_key key has,
        rw (← same_enc, ← same_nonce)
            (rw (laws.dpapi_decrypt-dpapi_encrypt c w wraps)
              (rw (laws.decrypt-encrypt key nonce p c encrypts) text)),
      )
