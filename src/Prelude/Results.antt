-- ===== src/Prelude/Results.antt =====
-- Go's pair of a value and an error, and methods that change an object and may fail: what was
-- written before an error stays written, so the state comes back beside the error too.
use mathlib.Core.Path.{◌≡◌, refl}
use mathlib.Core.Option.{Option, none, some}

pub data Result {ℓ} (E A : Type ℓ) : Type ℓ where
  ok : A → Result E A
  err : E → Result E A

pub Result-cases {ℓ} :
    {E A : Type ℓ} (P : Type ℓ) (r : Result E A)
    → ((a : A) → r ≡ ok a → P)
    → ((e : E) → r ≡ err e → P)
    → P
Result-cases P (ok a) f g = f a refl
Result-cases P (err e) f g = g e refl

pub ok_is {ℓ} : {E A : Type ℓ} {a b : A} → Path (Result E A) (ok a) (ok b) → a ≡ b
ok_is h = cc

-- The value part of Go's `error`: `none` is `nil`.
abbrev pub error_of {ℓ} : {E A : Type ℓ} → Result E A → Option E
error_of (ok a) = none
error_of (err e) = some e

-- The error of a result, changed: `fmt.Errorf` around it.
abbrev pub map_err {ℓ} : {E A : Type ℓ} → (E → E) → Result E A → Result E A
map_err f (ok a) = ok a
map_err f (err e) = err (f e)

-- A pure chain of calls: `if err != nil { return err }`.
infixl 10 ◌>>=◌
abbrev pub ◌>>=◌ {ℓ} : {E A B : Type ℓ} → Result E A → (A → Result E B) → Result E B
ok a >>= f = f a
err e >>= f = err e
