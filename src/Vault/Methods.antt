-- ===== src/Vault/Methods.antt =====
-- What a method on the vault keeps, from what its parts keep.
use bushido.Prelude.{◌≡◌, refl, Bool, true, false, List, [], ◌∷◌, Result, ok, err}
use bushido.Prelude.Io.{Io, ◌>>=◌, ◌>>◌, after}
use bushido.Vault.State.{VaultState, access, on_failure}

-- A method keeps `P`, and what it returns has `Q`.
abbrev pub Yields : {A : Type 0} → (VaultState → Type 0) → (A → Type 0) → Io VaultState A → Type 0
Yields P Q m = (v : VaultState) → P v → P (m v).1 × ((a : _) → (m v).0 ≡ ok a → Q a)

abbrev pub Anything : {A : Type 0} → A → Type 0
Anything a = Unit {0}

abbrev pub Keeps : {A : Type 0} → (VaultState → Type 0) → Io VaultState A → Type 0
Keeps P m = Yields P Anything m

module _ (P : VaultState → Type 0) where
  pub bind-Yields :
      {A B : Type 0} (Q : A → Type 0) (S : B → Type 0) (m : Io VaultState A)
      (f : A → Io VaultState B)
      → Yields P Q m
      → ((a : A) → Q a → Yields P S (f a))
      → Yields P S (m >>= f)
  bind-Yields {A} {B} Q S m f first rest v p = go (m v) (first v p).0 (first v p).1
    where
      go :
          (out : Result A × VaultState)
          → P out.1
          → ((a : A) → out.0 ≡ ok a → Q a)
          → P (after f out).1 × ((b : B) → (after f out).0 ≡ ok b → S b)
      go (ok a, w) pw q = rest a (q a refl) w pw
      go (err e, w) pw q = (pw, λ b e. cc)

  pub then-Keeps :
      {A B : Type 0} (m : Io VaultState A) (k : Io VaultState B)
      → Keeps P m
      → Keeps P k
      → Keeps P (m >> k)
  then-Keeps m k first rest = bind-Yields Anything Anything m (λ _. k) first (λ a q. rest)

  pub access-Yields :
      {A : Type 0} (Q : A → Type 0) (m : Io VaultState A)
      → ((v : VaultState) (rest : List Bool) → P v → P (record v { failures = rest }))
      → Yields P Q m
      → Yields P Q (access m)
  access-Yields {A} Q m moves keeps v p = go v.failures v p
    where
      go :
          (failures : List Bool) (v : VaultState)
          → P v
          → P (on_failure failures m v).1 × ((a : A) → (on_failure failures m v).0 ≡ ok a → Q a)
      go [] v p = keeps v p
      go (true ∷ rest) v p = (moves v rest p, λ a e. cc)
      go (false ∷ rest) v p = keeps (record v { failures = rest }) (moves v rest p)
