-- ===== src/Inventory/Stock.antt =====
-- apps/inventory-grpc/src/stock/stock.service.ts: the only code that changes the stock. Each method
-- is one transaction over the tables of `Store`; the locks that it takes serialise it against the
-- others, so its body is one function of the state. The clock's reading, the hash function and the
-- end of the transaction are parameters.
pub mod Results
pub mod Taking
pub mod Reserving
pub mod Reserve
pub mod Returning
pub mod Release
pub mod Lifecycle
pub mod Undo
pub mod Rejecting
unfoldable pub use Results.*
use tarea_integracion_sistem.Prelude.{
  ℕ, suc, ◌+◌, ◌-◌, Bool, true, false, not, List, [], ◌∷◌, ◌++◌, map, Option, none, some, ltb, ◌==◌,
  keep_if, if◌then◌else◌,
}
use tarea_integracion_sistem.Prelude.Result
use tarea_integracion_sistem.Prelude.Result.{Result, ok, err}
use tarea_integracion_sistem.Prelude.Tx.{
  Tx, Fate, ◌>>=◌, ◌>>◌, pure, gets, lift, write, transaction,
}
use tarea_integracion_sistem.Text.{Text, text_eq}
use tarea_integracion_sistem.Js.{Date}
use tarea_integracion_sistem.Inventory.Errors.{
  Exception, inventory, StockShortage, parts_not_found, insufficient_stock, order_id_conflict,
  reservation_not_found, reservation_already_released,
}
use tarea_integracion_sistem.Inventory.Request.{ReserveItem, ReserveCommand, request_fingerprint}
use tarea_integracion_sistem.Inventory.Store.{
  Store, PartRow, Operation, OperationItem, reserved, released, NewItem,
}

is_missing : List PartRow → ReserveItem → Bool
is_missing locked item = elim (part_of locked item.part_id) [ none ↦ true | some row ↦ false ]

-- The parts of the command that are not among the locked rows.
unfoldable pub missing_parts : List PartRow → List ReserveItem → List Text
unfolding is_missing
missing_parts locked items = map (λ i. i.part_id) (keep_if (is_missing locked) items)

abbrev shortage_of : ReserveItem → ℕ → List StockShortage
shortage_of item available =
    if ltb available item.quantity
    then record { part_id = item.part_id; requested = item.quantity; available = available } ∷ []
    else []

unfoldable pub find_shortages :
    List PartRow → List ReserveItem → Result Exception (List StockShortage)
unfolding part_or_throw
find_shortages locked [] = ok []
find_shortages locked (item ∷ items) = Result.◌>>=◌ (part_or_throw locked item.part_id) λ part.
    Result.◌>>=◌ (find_shortages locked items)
      λ rest. ok (shortage_of item part.stock_available ++ rest)

-- `part.stockAvailable - item.quantity`, a value for a column that the migrations keep from being
-- negative: a statement that writes a negative one throws.
unfoldable pub stock_less : PartRow → ReserveItem → Result Exception ℕ
stock_less part item =
    if ltb part.stock_available item.quantity
    then err negative_stock
    else ok (part.stock_available - item.quantity)

abbrev pub new_item : ℕ → ReserveItem → PartRow → ℕ → NewItem
new_item index item part after = record {
  line_number = index + 1;
  part_id = part.id;
  part_sku = part.sku;
  part_name = part.name;
  quantity = item.quantity;
  reserved_stock_before = part.stock_available;
  reserved_stock_after = after;
}

-- `command.items.map((item, index) => …)`
unfoldable pub new_items : List PartRow → ℕ → List ReserveItem → Result Exception (List NewItem)
unfolding part_or_throw stock_less
new_items locked index [] = ok []
new_items locked index (item ∷ items) = Result.◌>>=◌ (part_or_throw locked item.part_id) λ part.
    Result.◌>>=◌ (stock_less part item) λ after.
      Result.◌>>=◌ (new_items locked (suc index) items)
        λ rest. ok (new_item index item part after ∷ rest)

abbrev throw_missing : List Text → Result Exception (Unit {0})
throw_missing [] = ok tt
throw_missing (id ∷ ids) = err (inventory (parts_not_found (id ∷ ids)))

abbrev throw_shortages : List StockShortage → Result Exception (Unit {0})
throw_shortages [] = ok tt
throw_shortages (s ∷ ss) = err (inventory (insufficient_stock (s ∷ ss)))

-- An order that has an operation already: a conflict, a terminal state or a replay.
unfoldable pub reserve_existing : Text → Text → Operation → Result Exception StockOperationResult
unfolding to_reserve_result
reserve_existing order_id request_hash existing =
    if not (text_eq existing.request_hash request_hash)
    then err (inventory (order_id_conflict order_id))
    else if is_released existing.status
    then err (inventory (reservation_already_released order_id))
    else ok (to_reserve_result existing true)

module _ (store : Store) where
  open store use {Db, find_part, find_operation, select_parts, update_part, update_item}

  -- The loop that takes the stock, from the rows as they were locked.
  unfoldable pub take_stock : List PartRow → Date → List ReserveItem → Tx Exception Db (Unit {0})
  unfolding part_or_throw stock_less ◌>>=◌
  take_stock locked now [] = pure tt
  take_stock locked now (item ∷ items) = do
    part ← lift (part_or_throw locked item.part_id)
    after ← lift (stock_less part item)
    write (update_part part.id after now)
    take_stock locked now items

  unfoldable pub reserve_new : Text → Date → ReserveCommand → Tx Exception Db StockOperationResult
  unfolding to_reserve_result missing_parts find_shortages take_stock new_items
  reserve_new request_hash now command = do
    locked ← gets (select_parts (map (λ i. i.part_id) command.items))
    lift (throw_missing (missing_parts locked command.items))
    shortages ← lift (find_shortages locked command.items)
    lift (throw_shortages shortages)
    take_stock locked now command.items
    items ← lift (new_items locked 0 command.items)
    operation ← store.create_operation (record {
      order_id = command.order_id;
      request_hash = request_hash;
      status = reserved;
      reserved_at = now;
      items = items;
    })
    pure (to_reserve_result operation false)

  -- The branch on `existing`.
  unfoldable pub reserve_found :
      Text → Date → ReserveCommand → Option Operation → Tx Exception Db StockOperationResult
  unfolding reserve_existing reserve_new
  reserve_found request_hash now command (some existing) =
      lift (reserve_existing command.order_id request_hash existing)
  reserve_found request_hash now command none = reserve_new request_hash now command

  unfoldable pub reserve_body :
      (Text → Text) → Date → ReserveCommand → Tx Exception Db StockOperationResult
  unfolding reserve_found
  reserve_body sha256_hex now command = do
    existing ← gets (find_operation command.order_id)
    reserve_found (request_fingerprint sha256_hex command.items) now command existing

  -- `StockService.reserve`
  unfoldable pub reserve :
      (Text → Text)
      → Date
      → Fate Exception
      → ReserveCommand
      → Db
      → Result Exception StockOperationResult × Db
  unfolding reserve_body transaction
  reserve sha256_hex now fate command = transaction fate (reserve_body sha256_hex now command)

  -- The loop that gives the stock back, from the rows as they were locked.
  unfoldable pub return_stock :
      List PartRow → Date → List OperationItem → Tx Exception Db (Unit {0})
  unfolding part_or_throw ◌>>=◌
  return_stock locked now [] = pure tt
  return_stock locked now (item ∷ items) = do
    part ← lift (part_or_throw locked item.part_id)
    write (update_part item.part_id (part.stock_available + item.quantity) now)
    write (update_item item.id part.stock_available (part.stock_available + item.quantity))
    return_stock locked now items

  unfoldable pub release_reserved : Text → Date → Operation → Tx Exception Db StockOperationResult
  unfolding return_stock to_release_result
  release_reserved order_id now operation = do
    locked ← gets (select_parts (map (λ i. i.part_id) operation.items))
    return_stock locked now operation.items
    done ← store.update_operation order_id released now
    lift (to_release_result done false)

  -- The branches on `operation`.
  unfoldable pub release_found :
      Text → Date → Option Operation → Tx Exception Db StockOperationResult
  unfolding release_reserved to_release_result
  release_found order_id now none = lift (err (inventory (reservation_not_found order_id)))
  release_found order_id now (some operation) =
      if is_released operation.status
      then lift (to_release_result operation true)
      else release_reserved order_id now operation

  unfoldable pub release_body : Text → Date → Tx Exception Db StockOperationResult
  unfolding release_found
  release_body order_id now = do
    operation ← gets (find_operation order_id)
    release_found order_id now operation

  -- `StockService.release`
  unfoldable pub release :
      Text → Date → Fate Exception → Db → Result Exception StockOperationResult × Db
  unfolding release_body transaction
  release order_id now fate = transaction fate (release_body order_id now)
