-- ===== src/Prelude/Tx.antt =====
-- Code inside a database transaction: it reads and writes the state and may throw, and a throw
-- takes every write back.
use mathlib.Core.Logic.{◌⊎◌, inl, inr}
use mathlib.Core.Path.{◌≡◌, refl, ap, ◌∙◌}
use tarea_integracion_sistem.Prelude.Result.{Result, ok, err}

abbrev pub Tx : Type 0 → Type 0 → Type 0 → Type 0
Tx E S A = S → Result E (A × S)

module _ {E S : Type 0} where
  unfoldable pub pure : {A : Type 0} → A → Tx E S A
  pure a s = ok (a, s)

  unfoldable pub gets : {A : Type 0} → (S → A) → Tx E S A
  gets f s = ok (f s, s)

  -- A computation that reads and writes nothing.
  unfoldable pub lift : {A : Type 0} → Result E A → Tx E S A
  lift (ok a) s = ok (a, s)
  lift (err e) s = err e

  abbrev written : Result E S → Result E (Unit {0} × S)
  written (ok s) = ok (tt, s)
  written (err e) = err e

  -- A statement that writes and returns nothing.
  unfoldable pub write : (S → Result E S) → Tx E S (Unit {0})
  write m s = written (m s)

  abbrev continue : {A B : Type 0} → Result E (A × S) → (A → Tx E S B) → Result E (B × S)
  continue (ok (a, s)) f = f a s
  continue (err e) f = err e

  infixl 5 ◌>>=◌ ◌>>◌
  -- opening this opens `pure`, `gets`, `lift` and `write` too
  unfoldable pub ◌>>=◌ : {A B : Type 0} → Tx E S A → (A → Tx E S B) → Tx E S B
  unfolding pure gets lift write
  ◌>>=◌ m f s = continue (m s) f

  abbrev pub ◌>>◌ : {B : Type 0} → Tx E S (Unit {0}) → Tx E S B → Tx E S B
  first >> rest = first >>= λ done. rest

-- The steps of a block, for proofs in which the later steps stay shut.
module _ {E S A B : Type 0} (m : Tx E S A) (f : A → Tx E S B) {s : S} where
  pub bind-ok : {a : A} {s' : S} → m s ≡ ok (a, s') → (m >>= f) s ≡ f a s'
  unfolding ◌>>=◌
  bind-ok h = rw h

  pub bind-err : {e : E} → m s ≡ err e → (m >>= f) s ≡ err e
  unfolding ◌>>=◌
  bind-err h = rw h

module _ {E S A B : Type 0} (f : A → Tx E S B) (s : S) where
  pub bind-lift : (r : Result E A) {a : A} → r ≡ ok a → (lift r >>= f) s ≡ f a s
  unfolding ◌>>=◌
  bind-lift r h = rw h

  pub bind-lift_err : (r : Result E A) {e : E} → r ≡ err e → (lift r >>= f) s ≡ err e
  unfolding ◌>>=◌
  bind-lift_err r h = rw h

  pub bind-gets : (g : S → A) → (gets g >>= f) s ≡ f (g s) s
  unfolding ◌>>=◌
  bind-gets g = refl

module _ {E S B : Type 0} (k : Tx E S B) where
  pub bind-write : (w : S → Result E S) (s : S) {s' : S} → w s ≡ ok s' → (write w >> k) s ≡ k s'
  unfolding ◌>>=◌
  bind-write w s h = rw h

-- How the end of a transaction may go: it commits; it is rolled back, with an error of the
-- database; or it commits and the acknowledgement is lost, so that the caller sees an error.
pub data Fate (E : Type 0) : Type 0 where
  commits : Fate E
  rolled_back : E → Fate E
  ack_lost : E → Fate E

module _ {E S A : Type 0} where
  -- What the caller sees of a transaction whose body ended so, and the state after it.
  abbrev finish : Fate E → S → Result E (A × S) → Result E A × S
  finish commits s (ok (a, s')) = (ok a, s')
  finish (rolled_back e) s (ok (a, s')) = (err e, s)
  finish (ack_lost e) s (ok (a, s')) = (err e, s')
  finish fate s (err e) = (err e, s)

  unfoldable pub transaction : Fate E → Tx E S A → S → Result E A × S
  transaction fate body s = finish fate s (body s)

-- The transaction took effect, whether or not its caller was told.
abbrev pub Persists : {E : Type 0} → Fate E → Type 0
Persists commits = Unit
Persists (ack_lost e) = Unit
Persists (rolled_back e) = ⊥

module _ {E S A : Type 0} where
  finish_state :
      (fate : Fate E) (s : S) (r : Result E (A × S))
      → Persists fate
      → (finish fate s r).1 ≡ (finish commits s r).1
  finish_state commits s r p = refl
  finish_state (ack_lost e) s (ok (a, s')) p = refl
  finish_state (ack_lost e) s (err e') p = refl
  finish_state (rolled_back e) s r p = elim p [ ]

  finish-err : (fate : Fate E) (s : S) (e : E) → finish {A = A} fate s (err e) ≡ (err e, s)
  finish-err commits s e = refl
  finish-err (rolled_back e') s e = refl
  finish-err (ack_lost e') s e = refl

  -- A body that throws leaves the state, however the transaction was to end.
  pub transaction-err :
      (fate : Fate E) (body : Tx E S A) (s : S) {e : E}
      → body s ≡ err e
      → transaction fate body s ≡ (err e, s)
  unfolding transaction
  transaction-err fate body s {e} h = ap (finish fate s) h ∙ finish-err fate s e

  -- A lost acknowledgement leaves the state of the commit.
  pub transaction_state :
      (fate : Fate E) (body : Tx E S A) (s : S)
      → Persists fate
      → (transaction fate body s).1 ≡ (transaction commits body s).1
  unfolding transaction
  transaction_state fate body s = finish_state fate s (body s)

  abbrev pub LeavesState : S → Result E (A × S) → Type 0
  LeavesState s (ok (a, s')) = s' ≡ s
  LeavesState s (err e) = Unit

  finish-unchanged :
      (fate : Fate E) (s : S) (r : Result E (A × S)) → LeavesState s r → (finish fate s r).1 ≡ s
  finish-unchanged commits s (ok (a, s')) h = h
  finish-unchanged (rolled_back e) s (ok (a, s')) h = refl
  finish-unchanged (ack_lost e) s (ok (a, s')) h = h
  finish-unchanged commits s (err e) h = refl
  finish-unchanged (rolled_back e') s (err e) h = refl
  finish-unchanged (ack_lost e') s (err e) h = refl

  -- A body that only reads, or throws, leaves the state.
  pub transaction-unchanged :
      (fate : Fate E) (body : Tx E S A) (s : S)
      → LeavesState s (body s)
      → (transaction fate body s).1 ≡ s
  unfolding transaction
  transaction-unchanged fate body s h = finish-unchanged fate s (body s) h

  finish-rolled_back : (e : E) (s : S) (r : Result E (A × S)) → (finish (rolled_back e) s r).1 ≡ s
  finish-rolled_back e s (ok (a, s')) = refl
  finish-rolled_back e s (err e') = refl

  pub transaction-rolled_back :
      (e : E) (body : Tx E S A) (s : S) → (transaction (rolled_back e) body s).1 ≡ s
  unfolding transaction
  transaction-rolled_back e body s = finish-rolled_back e s (body s)

  pub lift-LeavesState : (r : Result E A) (s : S) → LeavesState s (lift r s)
  unfolding lift
  lift-LeavesState (ok a) s = refl
  lift-LeavesState (err e) s = tt

-- A transaction took effect, or it was taken back.
pub Fate-cases : {E : Type 0} (fate : Fate E) → Persists fate ⊎ ((e : E) × (fate ≡ rolled_back e))
Fate-cases commits = inl tt
Fate-cases (ack_lost e) = inl tt
Fate-cases (rolled_back e) = inr (e, refl)
