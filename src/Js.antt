-- ===== src/Js.antt =====
-- JavaScript values that both services use: a date, and a map made from an array of entries.
pub mod Laws
pub mod Process
use tarea_integracion_sistem.Prelude.{List, [], ◌∷◌, Option, none, some, if◌then◌else◌}
use tarea_integracion_sistem.Prelude.Int.{ℤ}
use tarea_integracion_sistem.Text.{Text, text_eq}

-- A `Date`: its milliseconds since the epoch, or the invalid date.
pub data Date : Type 0 where
  at : ℤ → Date
  invalid : Date

-- `new Map(rows.map((row) => [key(row), row])).get(k)`: a later entry replaces an earlier one.
module _ {ℓ} {A : Type ℓ} (key : A → Text) where
  unfoldable pub map_get : Text → List A → Option A
  map_get k [] = none
  map_get k (row ∷ rows) = elim (map_get k rows) [
    | some later ↦ some later
    | none ↦ if text_eq (key row) k then some row else none
  ]
