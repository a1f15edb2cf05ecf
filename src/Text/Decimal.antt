-- ===== src/Text/Decimal.antt =====
-- A number is read back from its decimal digits.
use tarea_integracion_sistem.Prelude.{
  ℕ, zero, suc, ◌+◌, ◌-◌, ◌*◌, ◌/◌, ◌%◌, ◌<◌, ◌≡◌, refl, sym, ap, ◌∙◌, Bool, true, ◌&&◌, [], ◌∷◌,
  ◌++◌, arith, Bool-cases, inl, inr, ltb, leb,
}
use tarea_integracion_sistem.Text.{Text, all_units, decimal, decimal_from}

value_from : ℕ → Text → ℕ
value_from n [] = n
value_from n (c ∷ cs) = value_from (n * 10 + (c - 48)) cs

value_from-snoc :
    (n : ℕ) (xs : Text) (c : ℕ) → value_from n (xs ++ (c ∷ [])) ≡ value_from n xs * 10 + (c - 48)
unfolding value_from
value_from-snoc n [] c = refl
value_from-snoc n (x ∷ xs) c = value_from-snoc (n * 10 + (x - 48)) xs c

value_from-decimal_from : (fuel n : ℕ) → n < fuel → value_from 0 (decimal_from fuel n) ≡ n
unfolding decimal_from value_from
value_from-decimal_from zero n h = absurd (omega arith)
value_from-decimal_from (suc fuel) n h = elim (Bool-cases (ltb n 10)) [
  | inl small ↦ rw small (omega arith)
  | inr large ↦
      let big : 10 < suc n = ground arith in
      let rest = value_from-decimal_from fuel (n / 10) (omega arith) in
      rw large
        (value_from-snoc 0 (decimal_from fuel (n / 10)) (n % 10 + 48) ∙ rw rest (omega arith))
]

abbrev pub digit : ℕ → Bool
digit c = leb 48 c && leb c 57

all_digits-snoc :
    (xs : Text) (c : ℕ)
    → all_units digit xs ≡ true
    → digit c ≡ true
    → all_units digit (xs ++ (c ∷ [])) ≡ true
all_digits-snoc [] c h d = ground arith
all_digits-snoc (x ∷ xs) c h d = ground (arith, all_digits-snoc xs c)

all_digits-decimal_from : (fuel n : ℕ) → all_units digit (decimal_from fuel n) ≡ true
unfolding decimal_from
all_digits-decimal_from zero n = refl
all_digits-decimal_from (suc fuel) n = elim (Bool-cases (ltb n 10)) [
  | inl small ↦ rw small (ground arith)
  | inr large ↦ rw large (
      all_digits-snoc (decimal_from fuel (n / 10)) (n % 10 + 48)
        (all_digits-decimal_from fuel (n / 10)) (ground arith))
]

pub decimal-digits : (n : ℕ) → all_units digit (decimal n) ≡ true
unfolding decimal
decimal-digits n = all_digits-decimal_from (suc n) n

pub decimal_injective : (m n : ℕ) → decimal m ≡ decimal n → m ≡ n
unfolding decimal
decimal_injective m n e =
    sym (value_from-decimal_from (suc m) m (omega arith))
    ∙ ap (value_from 0) e
    ∙ value_from-decimal_from (suc n) n (omega arith)
