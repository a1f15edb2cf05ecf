-- ===== src/Inventory/Request/Parsing.antt =====
-- What the validation of a reservation establishes.
use tarea_integracion_sistem.Prelude.{
  ℕ, suc, ◌≤◌, ◌≡◌, refl, ap, subst, ◌∙◌, Bool, false, true, List, [], ◌∷◌, map, Option, none, some,
  arith, length, All, Bool-cases, inl, inr,
}
use tarea_integracion_sistem.Prelude.Int.{ℤ, pos, negsuc}
use tarea_integracion_sistem.Prelude.Result.{Result, ok, throw_if, ◌>>◌, >>=-eq-ok}
use tarea_integracion_sistem.Text.{Text, text, to_lower_case, contains}
use tarea_integracion_sistem.Text.Laws.{to_lower_case_idem}
use tarea_integracion_sistem.Inventory.Uuid.{is_uuid, is_uuid_text, is_uuid_text-to_lower_case}
use tarea_integracion_sistem.Inventory.Errors.{InventoryError}
use tarea_integracion_sistem.Inventory.Request.{
  ReserveItem, StockItemRequest, parse_uuid, parse_quantity, parse_items, uuid_value, raw_items,
  ReserveStockRequest, ReserveCommand, parse_reserve_request,
}

-- A UUID in lower case.
abbrev pub IsFolded : Text → Type 0
IsFolded s = (is_uuid_text s ≡ true) × (to_lower_case s ≡ s)

-- No key stands twice, and none is among those seen before.
abbrev pub IsFresh : List Text → List Text → Type 0
IsFresh seen [] = Unit
IsFresh seen (k ∷ ks) = (contains k seen ≡ false) × IsFresh (k ∷ seen) ks

abbrev pub part_ids : List ReserveItem → List Text
part_ids = map (λ i. i.part_id)

abbrev pub IsValidItem : ReserveItem → Type 0
IsValidItem i = IsFolded i.part_id × (1 ≤ i.quantity) × (i.quantity ≤ 999)

pub record IsValidCommand (c : ReserveCommand) : Type 0 where
  pub order : IsFolded c.order_id
  pub some_items : 1 ≤ length c.items
  pub few_items : length c.items ≤ 50
  pub items : All IsValidItem c.items
  pub distinct : IsFresh [] (part_ids c.items)

to_lower_case-IsFolded : (v : Text) → is_uuid_text v ≡ true → IsFolded (to_lower_case v)
to_lower_case-IsFolded v e = (is_uuid_text-to_lower_case v ∙ e, to_lower_case_idem v)

parse_uuid-IsFolded :
    (value : Option Text) (field : Text) {id : Text} → parse_uuid value field ≡ ok id → IsFolded id
unfolding parse_uuid uuid_value is_uuid
parse_uuid-IsFolded none field h = cc
parse_uuid-IsFolded (some v) field {id} h = elim (Bool-cases (is_uuid_text v)) [
  | inl e ↦ subst IsFolded (ground arith) (to_lower_case-IsFolded v e)
  | inr e ↦ ground arith
]

parse_quantity_bounds :
    (index : ℕ) (quantity : Option ℤ) (n : ℕ)
    → parse_quantity index quantity ≡ ok n
    → (1 ≤ n) × (n ≤ 999)
unfolding parse_quantity
parse_quantity_bounds index none n h = cc
parse_quantity_bounds index (some (negsuc m)) n h = cc
parse_quantity_bounds index (some (pos m)) n h = ground arith

throw_if-eq-ok :
    {B : Type 0} (b : Bool) (e : InventoryError) (k : Result InventoryError B) {r : B}
    → (throw_if b e >> k) ≡ ok r
    → (b ≡ false) × (k ≡ ok r)
throw_if-eq-ok true e k h = cc
throw_if-eq-ok false e k h = (refl, h)

parse_items_sound :
    (index : ℕ) (seen : List Text) (raw : List StockItemRequest) {items : List ReserveItem}
    → parse_items index seen raw ≡ ok items
    → (length items ≡ length raw) × All IsValidItem items × IsFresh seen (part_ids items)
unfolding parse_items
parse_items_sound index seen [] {items} h =
    let e : ◌≡◌ {A = List ReserveItem} [] items = ground arith in
    subst (λ is. (length is ≡ 0) × All IsValidItem is × IsFresh seen (part_ids is)) e (refl, tt, tt)
parse_items_sound index seen (item ∷ raw) {items} h =
    let (part_id, parsed, h₁) = >>=-eq-ok _ _ h in
    let (fresh, h₂) = throw_if-eq-ok _ _ _ h₁ in
    let (quantity, counted, h₃) = >>=-eq-ok _ _ h₂ in
    let (rest, later, h₄) = >>=-eq-ok _ _ h₃ in
    let (len, valid, distinct) = parse_items_sound (suc index) (part_id ∷ seen) raw later in
    let e : ◌≡◌ {A = List ReserveItem} (record { part_id = part_id; quantity = quantity } ∷ rest)
        items =
      ground arith in
    subst (λ is. (length is ≡ suc (length raw)) × All IsValidItem is × IsFresh seen (part_ids is)) e
      (
        ap suc len,
        (
          (
            parse_uuid-IsFolded item.part_id _ parsed,
            (parse_quantity_bounds index item.quantity quantity counted).0,
            (parse_quantity_bounds index item.quantity quantity counted).1,
          ),
          valid,
        ),
        (fresh, distinct),
      )

-- A successful parse went through each step.
parse_reserve_request-inversion :
    (request : ReserveStockRequest) {command : ReserveCommand}
    → parse_reserve_request request ≡ ok command
    → (1 ≤ length (raw_items request.items))
      × (length (raw_items request.items) ≤ 50)
      × (parse_uuid request.order_id (text "order_id") ≡ ok command.order_id)
      × (parse_items 0 [] (raw_items request.items) ≡ ok command.items)
unfolding parse_reserve_request
parse_reserve_request-inversion request h = ground arith

-- A reservation that the validation accepts has an order in lower case, 1 to 50 items with
-- distinct parts in lower case, and quantities from 1 to 999.
pub parse_reserve_request-IsValidCommand :
    (request : ReserveStockRequest) (command : ReserveCommand)
    → parse_reserve_request request ≡ ok command
    → IsValidCommand command
parse_reserve_request-IsValidCommand request command h =
    let (some_items, few_items, order, items) = parse_reserve_request-inversion request h in
    let (len, valid, distinct) = parse_items_sound 0 [] (raw_items request.items) items in
    record {
      order = parse_uuid-IsFolded request.order_id _ order;
      some_items = omega arith;
      few_items = omega arith;
      items = valid;
      distinct = distinct;
    }
