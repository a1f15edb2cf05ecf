-- ===== src/Prelude/Act.antt =====
-- Code that changes a state and may throw, where a throw keeps what was changed: what another service
-- or the local variables hold is not taken back.
use tarea_integracion_sistem.Prelude.Result.{Result, ok, err}

abbrev pub Act : Type 0 → Type 0 → Type 0 → Type 0
Act E S A = S → Result E A × S

module _ {E S : Type 0} where
  abbrev pub pure : {A : Type 0} → A → Act E S A
  pure a s = (ok a, s)

  abbrev pub throw : {A : Type 0} → E → Act E S A
  throw e s = (err e, s)

  abbrev pub gets : {A : Type 0} → (S → A) → Act E S A
  gets f s = (ok (f s), s)

  abbrev pub modify : (S → S) → Act E S (Unit {0})
  modify f s = (ok tt, f s)

  abbrev pub lift : {A : Type 0} → Result E A → Act E S A
  lift r s = (r, s)

  -- What `try` sees: the result, as a value.
  abbrev pub attempt : {A : Type 0} → Act E S A → Act E S (Result E A)
  attempt m s = (ok (m s).0, (m s).1)

  abbrev pub continue : {A B : Type 0} → Result E A × S → (A → Act E S B) → Result E B × S
  continue (ok a, s) f = f a s
  continue (err e, s) f = (err e, s)

  infixl 5 ◌>>=◌ ◌>>◌
  unfoldable pub ◌>>=◌ : {A B : Type 0} → Act E S A → (A → Act E S B) → Act E S B
  ◌>>=◌ m f s = continue (m s) f

  abbrev pub ◌>>◌ : {B : Type 0} → Act E S (Unit {0}) → Act E S B → Act E S B
  first >> rest = first >>= λ done. rest
