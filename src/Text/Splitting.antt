-- ===== src/Text/Splitting.antt =====
-- A text is cut at the first unit that fails a test.
use tarea_integracion_sistem.Prelude.{
  ℕ, ◌≡◌, refl, sym, ap, ◌∙◌, Bool, true, false, [], ◌∷◌, ◌++◌, arith, if◌then◌else◌,
}
use tarea_integracion_sistem.Text.{Text, all_units}

module _ (test : ℕ → Bool) where
  before : Text → Text
  before [] = []
  before (c ∷ cs) = if test c then c ∷ before cs else []

  behind : Text → Text
  behind [] = []
  behind (c ∷ cs) = if test c then behind cs else cs

  module _ (stop : ℕ) (stops : test stop ≡ false) where
    before_lem : (xs rest : Text) → all_units test xs ≡ true → before (xs ++ (stop ∷ rest)) ≡ xs
    unfolding before
    before_lem [] rest h = rw stops refl
    before_lem (x ∷ xs) rest h = ground (arith, before_lem xs rest)

    behind_lem : (xs rest : Text) → all_units test xs ≡ true → behind (xs ++ (stop ∷ rest)) ≡ rest
    unfolding behind
    behind_lem [] rest h = rw stops refl
    behind_lem (x ∷ xs) rest h = ground (arith, behind_lem xs rest)

    -- What stands before the first such unit, and what behind it, are determined.
    pub cut_unique :
        (xs ys rest rest' : Text)
        → all_units test xs ≡ true
        → all_units test ys ≡ true
        → xs ++ (stop ∷ rest) ≡ ys ++ (stop ∷ rest')
        → (xs ≡ ys) × (rest ≡ rest')
    cut_unique xs ys rest rest' hx hy e = (
      sym (before_lem xs rest hx) ∙ ap before e ∙ before_lem ys rest' hy,
      sym (behind_lem xs rest hx) ∙ ap behind e ∙ behind_lem ys rest' hy,
    )
