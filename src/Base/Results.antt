-- ===== src/Base/Results.antt =====
-- A service call either returns or throws. A call that throws has rolled its database transaction
-- back, so `err` carries no state.
use mathlib.Core.Path.{◌≡◌, refl}
use mathlib.Core.Logic.{◌⊎◌, inl, inr}
use mathlib.Core.Bool.{Bool, true, false}
use mathlib.Core.Option.{Option, none, some}

pub data Result (E A : Type 0) : Type 0 where
  err : E → Result E A
  ok : A → Result E A

-- What the database holds after a call: the new state, or the old one after a rollback.
abbrev pub committed : {E A S : Type 0} → S → Result E (A × S) → S
committed before (err thrown) = before
committed before (ok (answer, after)) = after

-- `await`: a thrown error ends the call.
infixl 5 ◌>>=◌ ◌>>◌
abbrev pub ◌>>=◌ : {E A B : Type 0} → Result E A → (A → Result E B) → Result E B
err thrown >>= rest = err thrown
ok answer >>= rest = rest answer

-- `if (c) throw e`
abbrev pub throw_if : {E : Type 0} → Bool → E → Result E (Unit {0})
throw_if true e = err e
throw_if false e = ok tt

abbrev pub ◌>>◌ : {E B : Type 0} → Result E (Unit {0}) → Result E B → Result E B
check >> rest = check >>= λ _. rest

-- `if (!row) throw e`
abbrev pub or_throw : {E A : Type 0} → Option A → E → Result E A
or_throw (some row) e = ok row
or_throw none e = err e

pub Result-cases :
    {E A : Type 0} (r : Result E A) → ((e : E) × (r ≡ err e)) ⊎ ((a : A) × (r ≡ ok a))
Result-cases (err e) = inl (e, refl)
Result-cases (ok a) = inr (a, refl)

pub ok_inj : {E A : Type 0} (x y : A) → ◌≡◌ {A = Result E A} (ok x) (ok y) → x ≡ y
ok_inj x y h = cc

-- A property of what a call returns, when it returns.
abbrev pub Ensures {ℓ} : {E A : Type 0} → (A → Type ℓ) → Result E A → Type ℓ
Ensures P (err e) = Unit
Ensures P (ok a) = P a

pub Ensures-bind {ℓ κ} :
    {E A B : Type 0} (P : A → Type ℓ) (Q : B → Type κ) (r : Result E A) (rest : A → Result E B)
    → Ensures P r
    → ((a : A) → P a → Ensures Q (rest a))
    → Ensures Q (r >>= rest)
Ensures-bind P Q (err e) rest h next = tt
Ensures-bind P Q (ok a) rest h next = next a h

pub Ensures-or_throw {ℓ} :
    {E A : Type 0} (P : A → Type ℓ) (o : Option A) (e : E)
    → ((a : A) → o ≡ some a → P a)
    → Ensures P (or_throw o e)
Ensures-or_throw P none e h = tt
Ensures-or_throw P (some a) e h = h a refl

pub Ensures-throw_if {ℓ} :
    {E A : Type 0} (P : A → Type ℓ) (b : Bool) (e : E) (rest : Result E A)
    → (b ≡ false → Ensures P rest)
    → Ensures P (throw_if b e >> rest)
Ensures-throw_if P true e rest h = tt
Ensures-throw_if P false e rest h = h refl

pub Ensures-any : {E A : Type 0} (r : Result E A) → Ensures (λ _. Unit {0}) r
Ensures-any (err e) = tt
Ensures-any (ok a) = tt
