-- ===== src/Inventory/Stock/Returning/Lines.antt =====
-- What the loop of `release` writes to the lines of the operation: the stock of each part before and
-- after.
use mathlib.Core.List.{map-map, map-id}
use tarea_integracion_sistem.Prelude.{
  ℕ, ◌+◌, ◌≡◌, refl, sym, ◌∙◌, ap, false, List, [], ◌∷◌, map, Option, none, some, arith, All,
}
use tarea_integracion_sistem.Text.{Text, text_eq, contains}
use tarea_integracion_sistem.Text.Laws.{text_eq_comm, text_eq_refl}
use tarea_integracion_sistem.Js.{map_get}
use tarea_integracion_sistem.Inventory.Store.{
  PartRow, Operation, OperationItem, IsDistinct, map_option, release_item,
}
use tarea_integracion_sistem.Inventory.Stock.{part_of}

abbrev pub item_ids : List OperationItem → List Text
item_ids = map (λ i. i.id)

-- The stock of a part in the rows that were locked.
abbrev pub stock_of_row : Option PartRow → ℕ
stock_of_row none = 0
stock_of_row (some row) = row.stock_available

abbrev pub stock_in : List PartRow → Text → ℕ
stock_in locked id = stock_of_row (part_of locked id)

-- One write of the loop to a line.
abbrev pub note : List PartRow → OperationItem → OperationItem → OperationItem
note locked i =
    release_item i.id (stock_in locked i.part_id) (stock_in locked i.part_id + i.quantity)

abbrev notes : List PartRow → List OperationItem → OperationItem → OperationItem
notes locked [] x = x
notes locked (i ∷ is) x = notes locked is (note locked i x)

-- The operation after the writes of the loop.
abbrev pub noted : List PartRow → List OperationItem → Operation → Operation
noted locked [] op = op
noted locked (i ∷ is) op = noted locked is (record op { items = map (note locked i) op.items })

-- A line with its own stock before and after.
abbrev pub noted_item : List PartRow → OperationItem → OperationItem
noted_item locked i = record i {
  released_stock_before = some (stock_in locked i.part_id);
  released_stock_after = some (stock_in locked i.part_id + i.quantity);
}

notes-other :
    (locked : List PartRow) (is : List OperationItem) (x : OperationItem)
    → contains x.id (item_ids is) ≡ false
    → notes locked is x ≡ x
unfolding contains
notes-other locked [] x h = refl
notes-other locked (i ∷ is) x h =
    let ne : text_eq x.id i.id ≡ false = ground (arith, text_eq_comm x.id i.id) in
    rw ne (notes-other locked is x (ground arith))

notes-tail :
    (locked : List PartRow) (i : OperationItem) (is xs : List OperationItem)
    → contains i.id (item_ids xs) ≡ false
    → All (λ x. notes locked is x ≡ noted_item locked x) xs
    → All (λ x. notes locked (i ∷ is) x ≡ noted_item locked x) xs
unfolding contains
notes-tail locked i is [] h a = tt
notes-tail locked i is (x ∷ xs) h a =
    let ne : text_eq x.id i.id ≡ false = ground arith in
    (rw ne a.0, notes-tail locked i is xs (ground arith) a.1)

notes-own :
    (locked : List PartRow) (is : List OperationItem)
    → IsDistinct (item_ids is)
    → All (λ x. notes locked is x ≡ noted_item locked x) is
notes-own locked [] d = tt
notes-own locked (i ∷ is) d = (
  rw (text_eq_refl i.id) (notes-other locked is (noted_item locked i) d.0),
  notes-tail locked i is is d.0 (notes-own locked is d.1),
)

items-noted :
    (locked : List PartRow) (is : List OperationItem) (op : Operation)
    → (noted locked is op).items ≡ map (notes locked is) op.items
items-noted locked [] op = sym (map-id op.items)
items-noted locked (i ∷ is) op =
    items-noted locked is (record op { items = map (note locked i) op.items })
    ∙ map-map (notes locked is) (note locked i) op.items

map-All :
    (f g : OperationItem → OperationItem) (xs : List OperationItem)
    → All (λ x. f x ≡ g x) xs
    → map f xs ≡ map g xs
map-All f g [] h = refl
map-All f g (x ∷ xs) h = cc (h.0, map-All f g xs h.1)

noted-fields :
    (locked : List PartRow) (is : List OperationItem) (op : Operation)
    → noted locked is op ≡ record op { items = (noted locked is op).items }
noted-fields locked [] op = refl
noted-fields locked (i ∷ is) op =
    noted-fields locked is (record op { items = map (note locked i) op.items })

-- With distinct ids the loop notes each line once.
pub noted-all :
    (locked : List PartRow) (op : Operation)
    → IsDistinct (item_ids op.items)
    → noted locked op.items op ≡ record op { items = map (noted_item locked) op.items }
noted-all locked op d =
    noted-fields locked op.items op
    ∙ ap (λ is. record op { items = is })
        (items-noted locked op.items op
          ∙ map-All (notes locked op.items) (noted_item locked) op.items
              (notes-own locked op.items d))

pub map_get-note :
    (locked : List PartRow) (i : OperationItem) (k : Text) (xs : List OperationItem)
    → map_get (λ x. x.id) k (map (note locked i) xs)
      ≡ map_option (note locked i) (map_get (λ x. x.id) k xs)
unfolding map_get
map_get-note locked i k [] = refl
map_get-note locked i k (x ∷ xs) = ground (arith, map_get-note locked i k xs)

-- Each line is one of the operation's.
abbrev pub AreLines : Operation → List OperationItem → Type 0
AreLines op = All (λ i.
    (x : OperationItem) × (map_get (λ y. y.id) i.id op.items ≡ some x) × (x.quantity ≡ i.quantity))

pub AreLines-note :
    (locked : List PartRow) (i : OperationItem) (op : Operation) (is : List OperationItem)
    → AreLines op is
    → AreLines (record op { items = map (note locked i) op.items }) is
AreLines-note locked i op [] h = tt
AreLines-note locked i op (j ∷ js) ((x, found, same), h) = (
  (note locked i x, map_get-note locked i j.id op.items ∙ rw found, ground arith),
  AreLines-note locked i op js h,
)
