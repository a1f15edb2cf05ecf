-- ===== src/Text/Trim.antt =====
-- A text without white space is what `trim` leaves of it.
use tarea_integracion_sistem.Prelude.{ℕ, ◌≡◌, refl, ap, ◌∙◌, Bool, true, false, [], ◌∷◌, arith}
use tarea_integracion_sistem.Text.{Text, trim, all_units, is_space, trim_start, trim_end}

module _ (test : ℕ → Bool) (clean : (c : ℕ) → test c ≡ true → is_space c ≡ false) where
  trim_start-clean : (t : Text) → all_units test t ≡ true → trim_start t ≡ t
  unfolding trim_start
  trim_start-clean [] h = refl
  trim_start-clean (c ∷ cs) h = rw (clean c (ground arith)) refl

  trim_end-clean : (t : Text) → all_units test t ≡ true → trim_end t ≡ t
  unfolding trim_end
  trim_end-clean [] h = refl
  trim_end-clean (c ∷ []) h = rw (clean c (ground arith)) refl
  trim_end-clean (c ∷ d ∷ ds) h =
      let rest : trim_end (d ∷ ds) ≡ d ∷ ds = trim_end-clean (d ∷ ds) (ground arith) in rw rest refl

  pub trim-clean : (t : Text) → all_units test t ≡ true → trim t ≡ t
  unfolding trim
  trim-clean t h = ap trim_end (trim_start-clean t h) ∙ trim_end-clean t h
