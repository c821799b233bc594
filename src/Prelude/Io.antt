-- ===== src/Prelude/Io.antt =====
-- A method on a mutable object that may fail: the result, and the object afterwards. What was done
-- before a failure stays done.
use mathlib.Core.Path.{◌≡◌, ap, refl}
use Prim.Native.String.{String}
use bushido.Prelude.Outcome.{Result, ok, err}

abbrev pub Io : Type 0 → Type 0 → Type 0
Io S A = S → Result A × S

abbrev pub pure : {S A : Type 0} → A → Io S A
pure a s = (ok a, s)

abbrev pub fail : {S A : Type 0} → String → Io S A
fail e s = (err e, s)

-- What follows a step, on the step's result.
abbrev pub after : {S A B : Type 0} → (A → Io S B) → Result A × S → Result B × S
after f (ok a, s) = f a s
after f (err e, s) = (err e, s)

infixl 5 ◌>>=◌ ◌>>◌
abbrev pub ◌>>=◌ : {S A B : Type 0} → Io S A → (A → Io S B) → Io S B
◌>>=◌ m f s = after f (m s)

abbrev pub ◌>>◌ : {S A B : Type 0} → Io S A → Io S B → Io S B
m >> k = m >>= λ _. k

-- One successful step in front of the rest, and one that fails.
pub >>=-ok :
    {S A B : Type 0} (m : Io S A) (f : A → Io S B) (s : S) {a : A} {s' : S}
    → m s ≡ (ok a, s')
    → (m >>= f) s ≡ f a s'
>>=-ok m f s e = ap (after f) e

pub >>=-err :
    {S A B : Type 0} (m : Io S A) (f : A → Io S B) (s : S) {e : String} {s' : S}
    → m s ≡ (err e, s')
    → (m >>= f) s ≡ (err e, s')
>>=-err m f s h = ap (after f) h

-- Inversion of a step and its rest that succeed.
after-eq-ok :
    {S A B : Type 0} (f : A → Io S B) (r : Result A × S) {b : B} {t : S}
    → after f r ≡ (ok b, t)
    → (a : A) × (s : S) × (r ≡ (ok a, s)) × (f a s ≡ (ok b, t))
after-eq-ok f (ok a, s) e = (a, s, refl, e)
after-eq-ok f (err x, s) e = cc

pub >>=-eq-ok :
    {S A B : Type 0} (m : Io S A) (f : A → Io S B) (s : S) {b : B} {t : S}
    → (m >>= f) s ≡ (ok b, t)
    → (a : A) × (s' : S) × (m s ≡ (ok a, s')) × (f a s' ≡ (ok b, t))
>>=-eq-ok m f s e = after-eq-ok f (m s) e

-- A property of the object after a step and its rest.
pub after-state :
    {S A B : Type 0} (P : S → Type 0) (f : A → Io S B) (r : Result A × S)
    → P r.1
    → ((a : A) → r.0 ≡ ok a → P (f a r.1).1)
    → P (after f r).1
after-state P f (ok a, s) p q = q a refl
after-state P f (err e, s) p q = p
