-- ===== src/Vault/Runs.antt =====
-- The vault over the life of one master password.
use bushido.Prelude.{ℕ, ◌≡◌, List, [], ◌∷◌, All, Option, Bytes, ok}
use bushido.Vault.State.{VaultState, Crypto}
use bushido.Vault.Commands.{
  vault_unlock, vault_lock, vault_save_entry, vault_get_entries, vault_delete_entry,
  vault_update_entry,
}
use bushido.Vault.Readable.{CryptoLaws, IsValid}
use bushido.Vault.Kept.{
  IsText, save_entry-Keeps, update_entry-Keeps, delete_entry-Keeps, lock-Keeps, get_entries-Keeps,
}
use bushido.Vault.Unlock.{unlock-Keeps}

-- A call of a command other than `vault_setup`, with what it draws at random and the time.
pub data Command : Type 0 where
  unlock : Bytes → Command
  lock : Command
  save : Bytes → Bytes → ℕ → Bytes → Bytes → Bytes → Option Bytes → Command
  get : Option Bytes → Command
  delete : Bytes → Command
  update : Bytes → ℕ → Bytes → Option Bytes → Option Bytes → Option Bytes → Command

module _ (crypto : Crypto) where
  -- The passwords that come with a command are text.
  abbrev pub IsTextual : Command → Type 0
  IsTextual (unlock password) = Unit {0}
  IsTextual lock = Unit {0}
  IsTextual (save nonce id now domain username password notes) =
      crypto.from_utf8 password ≡ ok password
  IsTextual (get domain) = Unit {0}
  IsTextual (delete id) = Unit {0}
  IsTextual (update nonce now id username password notes) = IsText crypto password

  unfoldable pub perform : Command → VaultState → VaultState
  perform (unlock password) v = (vault_unlock crypto password v).1
  perform lock v = (vault_lock crypto v).1
  perform (save nonce id now domain username password notes) v =
      (vault_save_entry crypto nonce id now domain username password notes v).1
  perform (get domain) v = (vault_get_entries crypto domain v).1
  perform (delete id) v = (vault_delete_entry crypto id v).1
  perform (update nonce now id username password notes) v =
      (vault_update_entry crypto nonce now id username password notes v).1

  unfoldable pub perform_all : List Command → VaultState → VaultState
  perform_all [] v = v
  perform_all (c ∷ cs) v = perform_all cs (perform c v)

  perform-IsValid :
      (laws : CryptoLaws crypto) (k : Bytes) (c : Command) (v : VaultState)
      → IsTextual c
      → IsValid crypto k v
      → IsValid crypto k (perform c v)
  unfolding perform
  perform-IsValid laws k (unlock password) v text valid = (unlock-Keeps crypto k password v valid).0
  perform-IsValid laws k lock v text valid = (lock-Keeps crypto k v valid).0
  perform-IsValid laws k (save nonce id now domain username password notes) v text valid =
      (save_entry-Keeps crypto laws k nonce id now domain username password notes text v valid).0
  perform-IsValid laws k (get domain) v text valid = (get_entries-Keeps crypto k domain v valid).0
  perform-IsValid laws k (delete id) v text valid = (delete_entry-Keeps crypto k id v valid).0
  perform-IsValid laws k (update nonce now id username password notes) v text valid =
      (update_entry-Keeps crypto laws k nonce now id username password notes text v valid).0

  -- After any commands other than `vault_setup`, failures of the database included, the vault is
  -- valid for the same key if it was before: every row is decrypted with that key, the key in memory
  -- is that one or none, and a password that verifies gives no other.
  pub perform_all-IsValid :
      (laws : CryptoLaws crypto) (k : Bytes) (cs : List Command) (v : VaultState)
      → All IsTextual cs
      → IsValid crypto k v
      → IsValid crypto k (perform_all cs v)
  unfolding perform_all
  perform_all-IsValid laws k [] v texts valid = valid
  perform_all-IsValid laws k (c ∷ cs) v (text, texts) valid =
      perform_all-IsValid laws k cs (perform c v) texts (perform-IsValid laws k c v text valid)
