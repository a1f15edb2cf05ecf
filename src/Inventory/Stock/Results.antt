-- ===== src/Inventory/Stock/Results.antt =====
-- apps/inventory-grpc/src/stock/stock.service.ts: the results of the operations, and the rows that
-- they look up among the locked ones.
use tarea_integracion_sistem.Prelude.{ℕ, Bool, true, false, List, [], ◌∷◌, ◌++◌, map, Option, some}
use tarea_integracion_sistem.Prelude.Result
use tarea_integracion_sistem.Prelude.Result.{Result, ok, err, or_throw}
use tarea_integracion_sistem.Text.{Text, text}
use tarea_integracion_sistem.Js.{Date, map_get}
use tarea_integracion_sistem.Inventory.Errors.{Exception, unexpected}
use tarea_integracion_sistem.Inventory.Store.{
  PartRow, Operation, OperationItem, OperationStatus, reserved, released,
}

pub record StockMutation : Type 0 where
  pub part_id : Text
  pub part_sku : Text
  pub part_name : Text
  pub quantity : ℕ
  pub stock_before : ℕ
  pub stock_after : ℕ

pub record StockOperationResult : Type 0 where
  pub order_id : Text
  pub items : List StockMutation
  pub processed_at : Date
  pub replayed : Bool

abbrev pub is_released : OperationStatus → Bool
is_released reserved = false
is_released released = true

-- `partsById.get(id)`
abbrev pub part_of : List PartRow → Text → Option PartRow
part_of locked id = map_get (λ (r : PartRow). r.id) id locked

pub undefined_property : Exception
undefined_property = unexpected (text "Cannot read properties of undefined")

pub negative_stock : Exception
negative_stock = unexpected (text "violates check constraint parts_stock_available_non_negative")

-- `partsById.get(id)!` and a field of it: the field of `undefined` is a `TypeError`.
unfoldable pub part_or_throw : List PartRow → Text → Result Exception PartRow
part_or_throw locked id = or_throw undefined_property (part_of locked id)

abbrev pub reserve_mutation : OperationItem → StockMutation
reserve_mutation item = record {
  part_id = item.part_id;
  part_sku = item.part_sku;
  part_name = item.part_name;
  quantity = item.quantity;
  stock_before = item.reserved_stock_before;
  stock_after = item.reserved_stock_after;
}

unfoldable pub to_reserve_result : Operation → Bool → StockOperationResult
to_reserve_result operation replayed = record {
  order_id = operation.order_id;
  items = map reserve_mutation operation.items;
  processed_at = operation.reserved_at;
  replayed = replayed;
}

release_mutation_of : OperationItem → Option ℕ → Option ℕ → Result Exception StockMutation
release_mutation_of item (some before) (some after) = ok (record {
  part_id = item.part_id;
  part_sku = item.part_sku;
  part_name = item.part_name;
  quantity = item.quantity;
  stock_before = before;
  stock_after = after;
})
release_mutation_of item _ _ =
    err (unexpected (text "item " ++ item.id ++ text " of released operation has no release data"))

release_mutation : OperationItem → Result Exception StockMutation
unfolding release_mutation_of
release_mutation item =
    release_mutation_of item item.released_stock_before item.released_stock_after

unfoldable pub release_mutations : List OperationItem → Result Exception (List StockMutation)
unfolding release_mutation
release_mutations [] = ok []
release_mutations (item ∷ items) =
    Result.◌>>=◌ (release_mutation item)
      λ mutation. Result.◌>>=◌ (release_mutations items) λ mutations. ok (mutation ∷ mutations)

unfoldable pub to_release_result : Operation → Bool → Result Exception StockOperationResult
unfolding release_mutations
to_release_result operation replayed =
    Result.◌>>=◌
      (or_throw (unexpected (text "operation " ++ operation.order_id ++ text " is not released"))
        operation.released_at)
      λ released_at. Result.◌>>=◌ (release_mutations operation.items) λ mutations. ok (record {
        order_id = operation.order_id;
        items = mutations;
        processed_at = released_at;
        replayed = replayed;
      })
