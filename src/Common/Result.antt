-- ===== src/Common/Result.antt =====
-- `Result<A, E>`, with a third outcome for a panic, which ends the call without a value.
use mathlib.Core.Path.{◌≡◌, refl}
use mathlib.Core.Bool.{Bool, true, false}
use mathlib.Core.Option.{Option, none, some}

pub data Result {ℓ κ} (E : Type ℓ) (A : Type κ) : Type (ℓ ⊔ κ) where
  ok : A → Result E A
  err : E → Result E A
  panic : Result E A

module _ {ℓ} {E : Type ℓ} where
  infixl 5 ◌>>=◌ ◌>>◌
  abbrev pub ◌>>=◌ {κ μ} : {A : Type κ} {B : Type μ} → Result E A → (A → Result E B) → Result E B
  ok a >>= f = f a
  err e >>= f = err e
  panic >>= f = panic

  abbrev pub ◌>>◌ {κ} : {B : Type κ} → Result E (Unit {0}) → Result E B → Result E B
  m >> k = m >>= λ _. k

  -- `if bad { return Err(e); }`
  abbrev pub err_if : Bool → E → Result E (Unit {0})
  err_if true e = err e
  err_if false e = ok tt

  abbrev pub ok_or {κ} : {A : Type κ} → Option A → E → Result E A
  ok_or none e = err e
  ok_or (some a) e = ok a

  -- Both parts of a chain that succeeds succeed.
  pub >>=-eq-ok {κ μ} :
      {A : Type κ} {B : Type μ} {b : B} (first : Result E A) (rest : A → Result E B)
      → first >>= rest ≡ ok b
      → (a : A) × (first ≡ ok a) × (rest a ≡ ok b)
  >>=-eq-ok (ok a) rest done = (a, refl, done)
  >>=-eq-ok (err e) rest done = cc
  >>=-eq-ok panic rest done = cc

  pub err_if-eq-ok : (b : Bool) (e : E) {u : Unit {0}} → err_if b e ≡ ok u → b ≡ false
  err_if-eq-ok true e h = cc
  err_if-eq-ok false e h = refl
