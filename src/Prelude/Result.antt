-- ===== src/Prelude/Result.antt =====
-- Fallible code: a result, the exceptions of a pure function, and code that changes a state and may
-- throw. A throw drops the state that the thrower had reached.
use mathlib.Core.Path.{◌≡◌, refl}
use mathlib.Core.Bool.{Bool, true, false}
use mathlib.Core.Option.{Option, none, some}

pub data Result (E A : Type 0) : Type 0 where
  ok : A → Result E A
  err : E → Result E A

module _ {E : Type 0} where
  infixl 5 ◌>>=◌ ◌>>◌
  abbrev pub ◌>>=◌ : {A B : Type 0} → Result E A → (A → Result E B) → Result E B
  ok value >>= next = next value
  err thrown >>= next = err thrown

  abbrev pub ◌>>◌ : {B : Type 0} → Result E (Unit {0}) → Result E B → Result E B
  check >> rest = check >>= λ done. rest

  abbrev pub throw_if : Bool → E → Result E (Unit {0})
  throw_if true e = err e
  throw_if false e = ok tt

  abbrev pub or_throw : {A : Type 0} → E → Option A → Result E A
  or_throw e none = err e
  or_throw e (some a) = ok a

  -- A chain that returns: what its first part returned, and the rest.
  pub >>=-eq-ok :
      {A B : Type 0} (first : Result E A) (rest : A → Result E B) {answer : B}
      → (first >>= rest) ≡ ok answer
      → (value : A) × (first ≡ ok value) × (rest value ≡ ok answer)
  >>=-eq-ok (err thrown) rest returns = cc
  >>=-eq-ok (ok value) rest returns = (value, refl, returns)

pub ok_injective : {E A : Type 0} {a b : A} → ◌≡◌ {A = Result E A} (ok a) (ok b) → a ≡ b
ok_injective h = cc
