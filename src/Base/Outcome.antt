-- ===== src/Base/Outcome.antt =====
-- Results of fallible code, and stateful code that may fail: a Go method that returns
-- `(value, error)` and changes what it can reach.
use mathlib.Core.Path.{◌≡◌, refl}
use mathlib.Core.Logic.{◌⊎◌, inl, inr}
use mathlib.Core.Option.{Option, none, some}

pub data Result (E A : Type 0) : Type 0 where
  ok : A → Result E A
  err : E → Result E A

-- The state stays as it was left when an error is returned.
abbrev pub Action : Type 0 → Type 0 → Type 0 → Type 0
Action S E A = S → Result E A × S

module _ {S E A : Type 0} where
  abbrev pub pure : A → Action S E A
  pure a s = (ok a, s)

  abbrev pub fail : E → Action S E A
  fail e s = (err e, s)

abbrev pub and_then : {S E A B : Type 0} → Result E A × S → (A → Action S E B) → Result E B × S
and_then (ok a, s) f = f a s
and_then (err e, s) f = (err e, s)

infixl 5 ◌>>=◌ ◌>>◌
abbrev pub ◌>>=◌ : {S E A B : Type 0} → Action S E A → (A → Action S E B) → Action S E B
◌>>=◌ m f s = and_then (m s) f

abbrev pub ◌>>◌ : {S E B : Type 0} → Action S E (Unit {0}) → Action S E B → Action S E B
m >> k = m >>= λ _. k

-- `if err != nil { return … }` on a value.
infixl 5 ◌>>?◌
abbrev pub ◌>>?◌ : {E A B : Type 0} → Result E A → (A → Result E B) → Result E B
ok a >>? f = f a
err e >>? f = err e

-- A value that may be missing, with the error that is returned then.
abbrev pub or_err : {E A : Type 0} → Option A → E → Result E A
or_err none e = err e
or_err (some a) e = ok a

module _ {E A : Type 0} where
  pub >>?-eq-ok :
      {B : Type 0} (m : Result E A) (f : A → Result E B) {b : B}
      → (m >>? f) ≡ ok b
      → (a : A) × (m ≡ ok a) × (f a ≡ ok b)
  >>?-eq-ok (ok a) f h = (a, refl, h)
  >>?-eq-ok (err e) f h = cc

  pub or_err-eq-ok : (o : Option A) (e : E) {a : A} → or_err o e ≡ ok a → o ≡ some a
  or_err-eq-ok none e h = cc
  or_err-eq-ok (some b) e h = cc

  pub Result-cases : (m : Result E A) → ((a : A) × (m ≡ ok a)) ⊎ ((e : E) × (m ≡ err e))
  Result-cases (ok a) = inl (a, refl)
  Result-cases (err e) = inr (e, refl)
