-- ===== src/Vault/Setup.antt =====
-- Setting the master password of the vault, for the first time and again.
use Prim.Native.String.{String}
use bushido.Prelude.{
  ◌≤◌, ◌≡◌, refl, ap, ◌∙◌, List, [], ◌∷◌, none, some, Bytes, length, ok, err, true, false,
  le→not-ltb,
}
use bushido.Prelude.Table.{lookup, insert, lookup-insert, list_eq}
use bushido.Prelude.Io.{◌>>◌, >>=-ok}
use bushido.Vault.State.{
  VaultState, Row, Crypto, open_db, put_meta, get_meta, master_hash, salt_key, get_key,
  decrypt_password, decrypt_with,
}
use bushido.Vault.Commands.{vault_setup, vault_unlock, vault_lock, entry_of}

-- The meta table after a whole setup.
abbrev pub set_up : Bytes → Bytes → List (Bytes × Bytes) → List (Bytes × Bytes)
set_up hash salt m = insert salt_key salt (insert master_hash hash m)

hash-set_up : (h s : Bytes) (m : List (Bytes × Bytes)) → lookup master_hash (set_up h s m) ≡ some h
hash-set_up h s m =
    lookup-insert salt_key master_hash s (insert master_hash h m)
    ∙ lookup-insert master_hash master_hash h m

salt-set_up : (h s : Bytes) (m : List (Bytes × Bytes)) → lookup salt_key (set_up h s m) ≡ some s
salt-set_up h s m = lookup-insert salt_key salt_key s (insert master_hash h m)

module _ (crypto : Crypto) where
  setup-ok :
      (v : VaultState) (salt password h k : Bytes)
      → 8 ≤ length password
      → v.failures ≡ []
      → crypto.hash password salt ≡ ok h
      → crypto.derive password salt ≡ ok k
      → vault_setup crypto salt password v
        ≡ (ok tt, record v { vault_meta = set_up h salt v.vault_meta; derived_key = some k })
  unfolding vault_setup open_db put_meta
  setup-ok v salt password h k long sound hashes derives =
      rw (le→not-ltb 8 (length password) long, hashes) (rw sound (rw derives refl))

  unlock-ok :
      (v : VaultState) (password h s parsed k : Bytes)
      → v.failures ≡ []
      → lookup master_hash v.vault_meta ≡ some h
      → lookup salt_key v.vault_meta ≡ some s
      → crypto.parse (crypto.text h) ≡ ok parsed
      → crypto.verify password parsed ≡ true
      → crypto.derive password (crypto.text s) ≡ ok k
      → vault_unlock crypto password v ≡ (ok tt, record v { derived_key = some k })
  unfolding vault_unlock open_db get_meta
  unlock-ok v password h s parsed k sound has_hash has_salt parses verifies derives =
      rw (sound, get_meta) (rw has_hash (rw has_salt (rw parses (rw verifies (rw derives refl)))))

  unlock-wrong :
      (v : VaultState) (password h s parsed : Bytes)
      → v.failures ≡ []
      → lookup master_hash v.vault_meta ≡ some h
      → lookup salt_key v.vault_meta ≡ some s
      → crypto.parse (crypto.text h) ≡ ok parsed
      → crypto.verify password parsed ≡ false
      → vault_unlock crypto password v ≡ (err "wrong password", v)
  unfolding vault_unlock open_db get_meta
  unlock-wrong v password h s parsed sound has_hash has_salt parses refuses =
      rw (sound, get_meta) (rw has_hash (rw has_salt (rw parses (rw refuses refl))))

  -- The hash is written and the salt is not.
  half_set_up : VaultState → Bytes → VaultState
  half_set_up v h = record v { vault_meta = insert master_hash h v.vault_meta; failures = [] }

  setup-half :
      (v : VaultState) (salt password h : Bytes)
      → 8 ≤ length password
      → v.failures ≡ false ∷ false ∷ true ∷ []
      → crypto.hash password salt ≡ ok h
      → vault_setup crypto salt password v ≡ (err "db", half_set_up v h)
  unfolding vault_setup open_db put_meta half_set_up
  setup-half v salt password h long fails hashes =
      rw (le→not-ltb 8 (length password) long, hashes) (rw fails refl)

  -- A master password of 8 bytes or more that is set on a sound database, where the hash that is made
  -- verifies it and the salt is text: after the vault is locked, the same password unlocks it with the
  -- same key. A password that the hash does not verify does not: the vault stays locked.
  pub setup_lock_unlock :
      (v : VaultState) (salt password h parsed k other : Bytes)
      → 8 ≤ length password
      → v.failures ≡ []
      → crypto.hash password salt ≡ ok h
      → crypto.parse (crypto.text h) ≡ ok parsed
      → crypto.verify password parsed ≡ true
      → crypto.verify other parsed ≡ false
      → crypto.text salt ≡ salt
      → crypto.derive password salt ≡ ok k
      → let locked = ((vault_setup crypto salt password >> vault_lock crypto) v).1 in
        ((vault_unlock crypto password locked).0 ≡ ok tt)
        × ((vault_unlock crypto password locked).1.derived_key ≡ some k)
        × ((vault_unlock crypto other locked).0 ≡ err "wrong password")
        × ((vault_unlock crypto other locked).1.derived_key ≡ none)
  unfolding vault_lock
  setup_lock_unlock v salt password h parsed k other long sound hashes parses verifies wrong text
        derives =
      let m = v.vault_meta in
      let has_hash = hash-set_up h salt m in
      let has_salt = salt-set_up h salt m in
      let locked : VaultState = record v { vault_meta = set_up h salt m; derived_key = none } in
      let opens =
        unlock-ok locked password h salt parsed k sound has_hash has_salt parses verifies
          (ap (crypto.derive password) text ∙ derives) in
      let refuses = unlock-wrong locked other h salt parsed sound has_hash has_salt parses wrong in
      let set =
        >>=-ok (vault_setup crypto salt password) (λ _. vault_lock crypto) v
          (setup-ok v salt password h k long sound hashes derives) in
      rw set (
        ap (λ r. r.0) opens,
        ap (λ r. r.1.derived_key) opens,
        ap (λ r. r.0) refuses,
        ap (λ r. r.1.derived_key) refuses,
      )

  -- Setting a master password again changes the key and no row: on a sound database, an entry whose
  -- row the new key does not decrypt is from then on listed with an empty password.
  pub setup_again-unreadable :
      (v : VaultState) (salt password h k : Bytes) (row : Row) (e : String)
      → 8 ≤ length password
      → v.failures ≡ []
      → crypto.hash password salt ≡ ok h
      → crypto.derive password salt ≡ ok k
      → decrypt_with crypto k row.password_enc row.nonce ≡ err e
      → ((vault_setup crypto salt password v).0 ≡ ok tt)
        × ((vault_setup crypto salt password v).1.vault_entries ≡ v.vault_entries)
        × ((entry_of crypto (vault_setup crypto salt password v).1 row).password ≡ [])
  unfolding entry_of decrypt_password get_key
  setup_again-unreadable v salt password h k row e long sound hashes derives refused =
      rw (setup-ok v salt password h k long sound hashes derives) (refl, refl, rw refused refl)

  -- A setup in which the second write to the database fails: it reports an error, but the new
  -- password's hash stands beside the old salt. From then on the new password unlocks the vault,
  -- with the key that it and the old salt give, and a password that the new hash does not verify,
  -- such as the old one, does not.
  pub setup_interrupted :
      (v : VaultState) (salt password other h parsed s k : Bytes)
      → 8 ≤ length password
      → v.failures ≡ false ∷ false ∷ true ∷ []
      → lookup salt_key v.vault_meta ≡ some s
      → crypto.hash password salt ≡ ok h
      → crypto.parse (crypto.text h) ≡ ok parsed
      → crypto.verify password parsed ≡ true
      → crypto.verify other parsed ≡ false
      → crypto.derive password (crypto.text s) ≡ ok k
      → let broken = (vault_setup crypto salt password v).1 in
        ((vault_setup crypto salt password v).0 ≡ err "db")
        × (vault_unlock crypto password broken ≡ (ok tt, record broken { derived_key = some k }))
        × ((vault_unlock crypto other broken).0 ≡ err "wrong password")
  unfolding half_set_up
  setup_interrupted v salt password other h parsed s k long fails has_salt hashes parses verifies
        wrong derives =
      let m = v.vault_meta in
      let has_hash = lookup-insert master_hash master_hash h m in
      let old_salt = lookup-insert master_hash salt_key h m ∙ has_salt in
      rw (setup-half v salt password h long fails hashes) (
        refl,
        unlock-ok (half_set_up v h) password h s parsed k refl has_hash old_salt parses verifies
            derives,
        ap (λ r. r.0)
            (unlock-wrong (half_set_up v h) other h s parsed refl has_hash old_salt parses wrong),
      )
