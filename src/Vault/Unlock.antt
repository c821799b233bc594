-- ===== src/Vault/Unlock.antt =====
-- Unlocking the vault, against its invariant.
use Prim.Native.String.{String}
use bushido.Prelude.{
  arith, ◌≡◌, refl, sym, ap, ◌∙◌, Bool, true, List, Option, none, some, of_some, Bytes, Result, ok,
  err, ok_or,
}
use bushido.Prelude.Table.{lookup, list_eq}
use bushido.Prelude.Io.{pure}
use bushido.Vault.State.{
  VaultState, Crypto, access, open_db, get_meta, find_meta, found, master_hash, salt_key,
}
use bushido.Vault.Methods.{Yields, Anything, Keeps, bind-Yields, then-Keeps, access-Yields}
use bushido.Vault.Readable.{IsValid, moves}
use bushido.Vault.Commands.{lift, check, vault_unlock}

of_ok : {A : Type 0} {x y : A} → ok x ≡ ok y → x ≡ y
of_ok e = cc

module _ (crypto : Crypto) (k : Bytes) (m : List (Bytes × Bytes)) where
  -- Valid, and with the meta table `m`.
  P : VaultState → Type 0
  P v = IsValid crypto k v × (v.vault_meta ≡ m)

  P-moves : (v : VaultState) (rest : List Bool) → P v → P (record v { failures = rest })
  unfolding P
  P-moves v rest (valid, meta) = (moves crypto k v rest valid, meta)

  open_db-P : Keeps P open_db
  unfolding open_db
  open_db-P = access-Yields P Anything (pure tt) P-moves (λ v p. (p, λ a e. tt))

  ok_or-eq-ok :
      (o : Option Bytes) (missing : String) (b : Bytes) → ok_or o missing ≡ ok b → o ≡ some b
  ok_or-eq-ok none missing b e = cc
  ok_or-eq-ok (some a) missing b e = cc

  get_meta-Yields :
      (key : Bytes) (missing : String)
      → Yields P (λ h. lookup key m ≡ some h) (get_meta key missing)
  unfolding get_meta P
  get_meta-Yields key missing v p = go (access (find_meta key) v) (inner v p).0 (inner v p).1
    where
      inner : Yields P (λ o. lookup key m ≡ o) (access (find_meta key))
      inner =
          access-Yields P (λ o. lookup key m ≡ o) (find_meta key) P-moves
            (λ v p. (p, λ o e. ap (lookup key) (sym p.1) ∙ of_ok e))

      go :
          (out : Result (Option Bytes) × VaultState)
          → P out.1
          → ((o : Option Bytes) → out.0 ≡ ok o → lookup key m ≡ o)
          → P out.1 × ((h : Bytes) → found missing out.0 ≡ ok h → lookup key m ≡ some h)
      go (ok o, w) pw holds = (pw, λ h e. holds o refl ∙ ok_or-eq-ok o missing h e)
      go (err x, w) pw holds = (pw, λ h e. cc)

  lift-Yields : {A : Type 0} (r : Result A) → Yields P (λ a. r ≡ ok a) (lift r)
  lift-Yields r v p = (p, λ a e. e)

  check-eq-ok :
      (password parsed : Bytes) (a : Unit {0})
      → check crypto password parsed ≡ ok a
      → crypto.verify password parsed ≡ true
  check-eq-ok password parsed a e = ground arith

  unlock-P : (password : Bytes) → Keeps P (vault_unlock crypto password)
  unfolding vault_unlock P
  unlock-P password = then-Keeps P open_db _ open_db-P (
      bind-Yields P _ Anything (get_meta master_hash "no master password set") _
        (get_meta-Yields master_hash "no master password set")
        (λ h has_hash.
          bind-Yields P _ Anything (get_meta salt_key "no salt found") _
            (get_meta-Yields salt_key "no salt found")
            (λ s has_salt.
              bind-Yields P _ Anything (lift (crypto.parse (crypto.text h))) _
                (lift-Yields (crypto.parse (crypto.text h)))
                (λ parsed parses.
                  bind-Yields P _ Anything (lift (check crypto password parsed)) _
                    (lift-Yields (check crypto password parsed))
                    (λ a checks.
                      bind-Yields P _ Anything (lift (crypto.derive password (crypto.text s))) _
                        (lift-Yields (crypto.derive password (crypto.text s)))
                        (λ key derives v (valid, meta). (
                          (
                            record {
                              rows = valid.rows;
                              key = λ k' e.
                                  sym (of_some e)
                                  ∙ valid.unlocks password h s parsed key
                                      (ap (lookup master_hash) meta ∙ has_hash)
                                      (ap (lookup salt_key) meta ∙ has_salt) parses
                                      (check-eq-ok password parsed a checks) derives;
                              unlocks = valid.unlocks;
                            },
                            meta,
                          ),
                          λ a e. tt,
                        )))))))

-- A right password gives the key with which the rows are readable.
pub unlock-Keeps :
    (crypto : Crypto) (k password : Bytes) → Keeps (IsValid crypto k) (vault_unlock crypto password)
unfolding P
unlock-Keeps crypto k password v valid =
    ((unlock-P crypto k v.vault_meta password v (valid, refl)).0.0, λ a e. tt)
