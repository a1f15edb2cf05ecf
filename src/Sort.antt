-- ===== src/Sort.antt =====
-- `array.sort` by a key in string order. The method is stable, so its result is determined: it is
-- the insertion sort that puts an element before those that are not less.
pub mod Laws
pub mod Unique
use tarea_integracion_sistem.Prelude.{List, [], ◌∷◌, if◌then◌else◌}
use tarea_integracion_sistem.Text.{Text, text_lt}

module _ {ℓ} {A : Type ℓ} (key : A → Text) where
  unfoldable pub insert_by : A → List A → List A
  insert_by x [] = x ∷ []
  insert_by x (y ∷ ys) =
      let later = y ∷ insert_by x ys in if text_lt (key y) (key x) then later else x ∷ y ∷ ys

  unfoldable pub sort_by : List A → List A
  sort_by [] = []
  sort_by (x ∷ xs) = insert_by x (sort_by xs)
