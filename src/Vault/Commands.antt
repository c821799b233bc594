-- ===== src/Vault/Commands.antt =====
-- The commands of src-tauri/src/vault.rs. What the code draws at random and the time are arguments:
-- the salt, the nonce, the id and `now`.
use bushido.Prelude.{
  ℕ, Bool, true, false, List, [], ◌∷◌, ◌++◌, map, Option, none, some, Bytes, length, ltb, not,
  if◌then◌else◌, Result, ok, err,
}
use bushido.Prelude.Table.{lookup, list_beq, list_eq}
use bushido.Prelude.Io.{Io, pure, fail, ◌>>=◌, ◌>>◌}
use bushido.Vault.State.{
  Row, VaultEntry, VaultState, Crypto, access, modify, open_db, put_meta, get_meta, master_hash,
  salt_key, encrypt_password, decrypt_password,
}

-- A result at hand.
abbrev pub lift : {A : Type 0} → Result A → Io VaultState A
lift r v = (r, v)

abbrev pub update_row : Bytes → (Row → Row) → List Row → List Row
update_row id f [] = []
update_row id f (row ∷ rows) = (if list_beq row.id id then f row else row) ∷ update_row id f rows

abbrev pub delete_row : Bytes → List Row → List Row
delete_row id [] = []
delete_row id (row ∷ rows) =
    let rest = delete_row id rows in if list_beq row.id id then rest else row ∷ rest

abbrev pub rows_of : Option Bytes → List Row → List Row
rows_of none rows = rows
rows_of (some d) [] = []
rows_of (some d) (row ∷ rows) =
    let rest = rows_of (some d) rows in if list_beq row.domain d then row ∷ rest else rest

-- `WHERE id`, and the column that is set with `updated_at`.
unfoldable pub update_where : Bytes → (Row → Row) → Io VaultState (Unit {0})
update_where id f =
    access (modify (λ v. record v { vault_entries = update_row id f v.vault_entries }))

abbrev pub unwrap_or_default : Result Bytes → Bytes
unwrap_or_default (ok b) = b
unwrap_or_default (err e) = []

abbrev pub is_some : {A : Type 0} → Option A → Bool
is_some none = false
is_some (some a) = true

abbrev pub unwrap_or_false : Result Bool → Result Bool
unwrap_or_false (ok b) = ok b
unwrap_or_false (err e) = ok false

-- `SELECT COUNT(*) > 0`, with `unwrap_or(false)`.
abbrev pub has_hash : Io VaultState Bool
has_hash v =
    let (r, v') = access {A = Bool} (λ w. (ok (is_some (lookup master_hash w.vault_meta)), w)) v in
    (unwrap_or_false r, v')

unfoldable pub vault_has_master_password : Io VaultState Bool
vault_has_master_password = do open_db; has_hash

abbrev pub or_false : Result Bool → Bool
or_false (ok b) = b
or_false (err e) = false

unfoldable pub has_master_password_sync : VaultState → Bool × VaultState
has_master_password_sync v = let (r, v') = vault_has_master_password v in (or_false r, v')

module _ (crypto : Crypto) where
  open crypto use {hash, parse, verify, derive, text, order_by}

  abbrev pub store_master : Bytes → Bytes → Bytes → Io VaultState (Unit {0})
  store_master password salt hashed = do
    open_db
    put_meta master_hash hashed
    put_meta salt_key salt
    key ← lift (derive password salt)
    modify (λ v. record v { derived_key = some key })

  unfoldable pub vault_setup : Bytes → Bytes → Io VaultState (Unit {0})
  vault_setup salt password =
      if ltb (length password) 8
      then fail "password must be at least 8 characters"
      else (do hashed ← lift (hash password salt); store_master password salt hashed)

  abbrev pub check : Bytes → Bytes → Result (Unit {0})
  check password parsed = if verify password parsed then ok tt else err "wrong password"

  unfoldable pub vault_unlock : Bytes → Io VaultState (Unit {0})
  vault_unlock password = do
    open_db
    hash_bytes ← get_meta master_hash "no master password set"
    salt_bytes ← get_meta salt_key "no salt found"
    parsed ← lift (parse (text hash_bytes))
    lift (check password parsed)
    key ← lift (derive password (text salt_bytes))
    modify (λ v. record v { derived_key = some key })

  unfoldable pub vault_lock : Io VaultState (Unit {0})
  vault_lock = modify (λ v. record v { derived_key = none })

  unfoldable pub vault_is_unlocked : Io VaultState Bool
  vault_is_unlocked v = (ok (is_some v.derived_key), v)

  abbrev pub new_row : Bytes → ℕ → Bytes → Bytes → Option Bytes → Bytes × Bytes → Row
  new_row id now domain username notes (enc, nonce) = record {
    id = id;
    domain = domain;
    username = username;
    password_enc = enc;
    nonce = nonce;
    notes = elim notes [ none ↦ [] | some n ↦ n ];
    created_at = now;
    updated_at = now;
  }

  unfoldable pub vault_save_entry :
      Bytes → Bytes → ℕ → Bytes → Bytes → Bytes → Option Bytes → Io VaultState Bytes
  vault_save_entry nonce id now domain username password notes = do
    sealed ← λ v. (encrypt_password crypto nonce password v, v)
    open_db
    access (
        modify (λ v. record v {
          vault_entries = v.vault_entries ++ (new_row id now domain username notes sealed ∷ []);
        }))
    pure id

  unfoldable pub entry_of : VaultState → Row → VaultEntry
  entry_of v row = record {
    id = row.id;
    domain = row.domain;
    username = row.username;
    password = unwrap_or_default (decrypt_password crypto row.password_enc row.nonce v);
    notes = row.notes;
    created_at = row.created_at;
    updated_at = row.updated_at;
  }

  abbrev pub list_rows : Option Bytes → Io VaultState (List VaultEntry)
  list_rows domain v =
      (ok (map (entry_of v) (order_by (not (is_some domain)) (rows_of domain v.vault_entries))), v)

  unfoldable pub vault_get_entries : Option Bytes → Io VaultState (List VaultEntry)
  vault_get_entries domain = do open_db; access (list_rows domain)

  -- Without the key, the form filler gets no entry.
  unfoldable pub get_entries_for_domain : Bytes → Io VaultState (List VaultEntry)
  get_entries_for_domain domain v =
      if is_some v.derived_key then vault_get_entries (some domain) v else (ok [], v)

  unfoldable pub vault_delete_entry : Bytes → Io VaultState (Unit {0})
  vault_delete_entry id = do
    open_db
    access (modify (λ v. record v { vault_entries = delete_row id v.vault_entries }))

  abbrev pub update_password : Bytes → Bytes → ℕ → Option Bytes → Io VaultState (Unit {0})
  update_password nonce id now none = pure tt
  update_password nonce id now (some pw) = do
    sealed ← λ v. (encrypt_password crypto nonce pw v, v)
    update_where id
        (λ row. record row { password_enc = sealed.0; nonce = sealed.1; updated_at = now })

  abbrev pub update_username : Bytes → ℕ → Option Bytes → Io VaultState (Unit {0})
  update_username id now none = pure tt
  update_username id now (some u) =
      update_where id (λ row. record row { username = u; updated_at = now })

  abbrev pub update_notes : Bytes → ℕ → Option Bytes → Io VaultState (Unit {0})
  update_notes id now none = pure tt
  update_notes id now (some n) = update_where id (λ row. record row { notes = n; updated_at = now })

  unfoldable pub vault_update_entry :
      Bytes → ℕ → Bytes → Option Bytes → Option Bytes → Option Bytes → Io VaultState (Unit {0})
  vault_update_entry nonce now id username password notes = do
    open_db
    update_password nonce id now password
    update_username id now username
    update_notes id now notes
