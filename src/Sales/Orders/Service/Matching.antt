-- ===== src/Sales/Orders/Service/Matching.antt =====
-- What it is for the lines of a reservation to be those of a request, and that the check of the service
-- finds it out.
use tarea_integracion_sistem.Prelude.{
  ◌≡◌, ◌⊎◌, refl, ap, ◌∙◌, true, List, [], ◌∷◌, some, length, All, Bool-cases, Option-cases, ◌==◌,
  ◌&&◌, inl, inr, arith,
}
use tarea_integracion_sistem.Prelude.Result.{err}
use tarea_integracion_sistem.Text.{text, text_eq, to_lower_case}
use tarea_integracion_sistem.Text.Laws.{text_eq_sound}
use tarea_integracion_sistem.Js.{map_get}
use tarea_integracion_sistem.Sales.Errors.{Exception, other}
use tarea_integracion_sistem.Sales.Gateway.{ReserveStockItem, ReservedStockItem}
use tarea_integracion_sistem.Sales.Orders.Service.{assert_reservation_matches, all_match}

-- One of the lines is of the item's part and quantity.
abbrev pub HasLine : List ReservedStockItem → ReserveStockItem → Type 0
HasLine [] item = ⊥
HasLine (s ∷ ss) item =
    (to_lower_case s.part_id ≡ item.part_id) × (s.quantity ≡ item.quantity) ⊎ HasLine ss item

abbrev pub IsAnswer : List ReserveStockItem → List ReservedStockItem → Type 0
IsAnswer items snapshots = (length items ≡ length snapshots) × All (λ i. HasLine snapshots i) items

HasLine-map_get :
    (item : ReserveStockItem) (snapshots : List ReservedStockItem) (s : ReservedStockItem)
    → map_get (λ (r : ReservedStockItem). to_lower_case r.part_id) item.part_id snapshots ≡ some s
    → s.quantity ≡ item.quantity
    → HasLine snapshots item
unfolding map_get
HasLine-map_get item [] s found same = cc
HasLine-map_get item (r ∷ rs) s found same =
    elim (Option-cases
      (map_get (λ (r : ReservedStockItem). to_lower_case r.part_id) item.part_id rs)) [
        | inl none_later ↦
            let key : text_eq (to_lower_case r.part_id) item.part_id ≡ true = ground arith in
            let own : r ≡ s = ground arith in
            inl (
              text_eq_sound (to_lower_case r.part_id) item.part_id key,
              ap (λ (x : ReservedStockItem). x.quantity) own ∙ same,
            )
        | inr (later, found') ↦
            let own : later ≡ s = ground arith in
            inr (
              HasLine-map_get item rs later found'
                (ap (λ (x : ReservedStockItem). x.quantity) own ∙ same))
      ]

all_match-HasLine :
    (snapshots : List ReservedStockItem) (items : List ReserveStockItem)
    → all_match snapshots items ≡ true
    → All (λ i. HasLine snapshots i) items
all_match-HasLine snapshots [] h = tt
all_match-HasLine snapshots (i ∷ is) h =
    elim (Option-cases
      (map_get (λ (r : ReservedStockItem). to_lower_case r.part_id) i.part_id snapshots)) [
        | inl absent ↦ absurd (ground arith)
        | inr (s, found) ↦ (
          HasLine-map_get i snapshots s found (ground arith),
          all_match-HasLine snapshots is (ground arith),
        )
      ]

-- The check throws on every other answer.
pub assert_refuses :
    (items : List ReserveStockItem) (snapshots : List ReservedStockItem)
    → ¬ IsAnswer items snapshots
    → (x : Exception) × (assert_reservation_matches items snapshots ≡ err x)
unfolding assert_reservation_matches
assert_refuses items snapshots apart =
    elim (Bool-cases (length items == length snapshots && all_match snapshots items)) [
      | inl passes ↦ absurd (apart (ground arith, all_match-HasLine snapshots items (ground arith)))
      | inr fails ↦
          (other (text "Inventory reservation result did not match request"), rw fails refl)
    ]
