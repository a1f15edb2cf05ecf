-- ===== src/Json/Reading.antt =====
-- A string of units that need no escape is written as it is, and the elements of an array stand apart.
use mathlib.Core.List.{append_assoc}
use tarea_integracion_sistem.Prelude.{
  ℕ, ◌≡◌, refl, ap, Bool, true, not, ◌&&◌, List, [], ◌∷◌, ◌++◌, arith, leb, ◌==◌,
}
use tarea_integracion_sistem.Text.{Text, all_units}
use tarea_integracion_sistem.Json.{json_string, json_array, escape, escape_unit, join_elements}

abbrev pub plain : ℕ → Bool
plain c = leb 32 c && not (c == 34) && not (c == 92)

escape_unit-plain : (c : ℕ) → plain c ≡ true → escape_unit c ≡ c ∷ []
unfolding escape_unit
escape_unit-plain c h = ground arith

escape-plain : (t : Text) → all_units plain t ≡ true → escape t ≡ t
unfolding escape
escape-plain [] h = refl
escape-plain (c ∷ cs) h =
    let unit = escape_unit-plain c (ground arith) in
    let rest = escape-plain cs (ground arith) in rw (unit, rest) refl

pub json_string-plain :
    (t : Text) → all_units plain t ≡ true → json_string t ≡ 34 ∷ (t ++ (34 ∷ []))
unfolding json_string
json_string-plain t h = rw (escape-plain t h) refl

-- What follows the first element: the rest, or the end.
unfoldable pub after_first : List Text → Text
after_first [] = 93 ∷ []
after_first (e ∷ es) = 44 ∷ (join_elements (e ∷ es) ++ (93 ∷ []))

pub json_array-cons : (e : Text) (es : List Text) → json_array (e ∷ es) ≡ 91 ∷ (e ++ after_first es)
unfolding json_array join_elements after_first
json_array-cons e [] = refl
json_array-cons e (n ∷ es) =
    ap (λ t. 91 ∷ t) (append_assoc e (44 ∷ join_elements (n ∷ es)) (93 ∷ []))

pub after_first-cons :
    (e : Text) (es : List Text) → after_first (e ∷ es) ≡ 44 ∷ (e ++ after_first es)
unfolding join_elements after_first
after_first-cons e [] = refl
after_first-cons e (n ∷ es) =
    ap (λ t. 44 ∷ t) (append_assoc e (44 ∷ join_elements (n ∷ es)) (93 ∷ []))
