-- ===== src/Vault/State.antt =====
-- `VaultState` of src-tauri/src/vault.rs with its database, and what its commands call: the two
-- tables with the statements on them, the ciphers, and the key in memory. `argon2`, the cipher, the
-- system's key store, SQLite's order of rows and random values are parameters. Time stamps are
-- numbers of seconds since 1970. An insertion does not look for a row with the id, which is drawn at
-- random; SQLite refuses one.
use Prim.Native.String.{String}
use bushido.Prelude.{
  ℕ, Bool, true, false, List, [], ◌∷◌, Option, Bytes, codes, Result, ok, err, ok_or,
}
use bushido.Prelude.Table.{lookup, insert, list_eq}
use bushido.Prelude.Io.{Io, pure}

-- A row of `vault_entries`.
pub record Row : Type 0 where
  pub id : Bytes
  pub domain : Bytes
  pub username : Bytes
  pub password_enc : Bytes
  pub nonce : Bytes
  pub notes : Bytes
  pub created_at : ℕ
  pub updated_at : ℕ

pub record VaultEntry : Type 0 where
  pub id : Bytes
  pub domain : Bytes
  pub username : Bytes
  pub password : Bytes
  pub notes : Bytes
  pub created_at : ℕ
  pub updated_at : ℕ

-- The tables, the key, and of each access to the database to come, whether it fails.
pub record VaultState : Type 0 where
  pub vault_meta : List (Bytes × Bytes)
  pub vault_entries : List Row
  pub derived_key : Option Bytes
  pub failures : List Bool

-- `hash` makes the text of a password's hash with a salt, and `verify` reads one; `derive` is
-- `hash_password_into`. `text` is `from_utf8_lossy`, and `from_utf8` the strict one.
pub record Crypto : Type 0 where
  pub hash : Bytes → Bytes → Result Bytes
  pub parse : Bytes → Result Bytes
  pub verify : Bytes → Bytes → Bool
  pub derive : Bytes → Bytes → Result Bytes
  pub encrypt : Bytes → Bytes → Bytes → Result Bytes
  pub decrypt : Bytes → Bytes → Bytes → Result Bytes
  pub dpapi_encrypt : Bytes → Result Bytes
  pub dpapi_decrypt : Bytes → Result Bytes
  pub text : Bytes → Bytes
  pub from_utf8 : Bytes → Result Bytes
  -- `ORDER BY`, with the domain in front or only the time of the last update.
  pub order_by : Bool → List Row → List Row

abbrev pub on_failure : {A : Type 0} → List Bool → Io VaultState A → Io VaultState A
on_failure [] m v = m v
on_failure (true ∷ rest) m v = (err "db", record v { failures = rest })
on_failure (false ∷ rest) m v = m (record v { failures = rest })

-- An access to the database: opening it, or a statement.
abbrev pub access : {A : Type 0} → Io VaultState A → Io VaultState A
access m v = on_failure v.failures m v

unfoldable pub open_db : Io VaultState (Unit {0})
open_db = access (pure tt)

abbrev pub modify : (VaultState → VaultState) → Io VaultState (Unit {0})
modify f v = (ok tt, f v)

-- `INSERT OR REPLACE INTO vault_meta`
unfoldable pub put_meta : Bytes → Bytes → Io VaultState (Unit {0})
put_meta key value = access (modify (λ v. record v { vault_meta = insert key value v.vault_meta }))

-- A failure of the query and no row give the same error.
abbrev pub found : String → Result (Option Bytes) → Result Bytes
found missing (ok o) = ok_or o missing
found missing (err e) = err missing

abbrev pub find_meta : Bytes → Io VaultState (Option Bytes)
find_meta key v = (ok (lookup key v.vault_meta), v)

-- `SELECT value FROM vault_meta WHERE key`
unfoldable pub get_meta : Bytes → String → Io VaultState Bytes
get_meta key missing v = let (r, v') = access (find_meta key) v in (found missing r, v')

abbrev pub master_hash : Bytes
master_hash = codes "master_hash"

abbrev pub salt_key : Bytes
salt_key = codes "salt"

module _ (crypto : Crypto) where
  open crypto use {encrypt, decrypt, dpapi_encrypt, dpapi_decrypt, from_utf8}

  unfoldable pub get_key : VaultState → Result Bytes
  get_key v = ok_or v.derived_key "vault locked"

  -- The parts of `Result` that the two functions chain.
  abbrev pub then_do : {A B : Type 0} → Result A → (A → Result B) → Result B
  then_do (ok a) f = f a
  then_do (err e) f = err e

  unfoldable pub encrypt_password : Bytes → Bytes → VaultState → Result (Bytes × Bytes)
  encrypt_password nonce plaintext v = then_do (get_key v) (λ key.
      then_do (encrypt key nonce plaintext)
        (λ encrypted. then_do (dpapi_encrypt encrypted) (λ wrapped. ok (wrapped, nonce))))

  unfoldable pub decrypt_with : Bytes → Bytes → Bytes → Result Bytes
  decrypt_with key enc nonce =
      then_do (dpapi_decrypt enc)
        (λ unwrapped. then_do (decrypt key nonce unwrapped) (λ decrypted. from_utf8 decrypted))

  unfoldable pub decrypt_password : Bytes → Bytes → VaultState → Result Bytes
  decrypt_password enc nonce v = then_do (get_key v) (λ key. decrypt_with key enc nonce)
