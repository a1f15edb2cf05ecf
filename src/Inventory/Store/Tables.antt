-- ===== src/Inventory/Store/Tables.antt =====
-- Tables for which the laws of `Store` hold: rows in lists, operations under their order. The id of
-- a line is made of its position and its order, so that it is unique by construction, and the
-- stock is read modulo the size of its column.
pub mod Laws
use tarea_integracion_sistem.Prelude.{
  take, ℕ, suc, ◌%◌, List, [], ◌∷◌, map, Option, none, some, keep_if, if◌then◌else◌,
}
use tarea_integracion_sistem.Prelude.Result.{Result, ok, err}
use tarea_integracion_sistem.Text.{Text, text, text_eq, contains}
use tarea_integracion_sistem.Js.{Date, map_get}
use tarea_integracion_sistem.Sort.{sort_by}
use tarea_integracion_sistem.Inventory.Errors.{Exception, unexpected}
use tarea_integracion_sistem.Inventory.Store.{
  Store, PartRow, Operation, OperationItem, OperationStatus, NewItem, stored, release_items,
  map_option, int_limit,
}

pub record TablesDb : Type 0 where
  pub parts : List PartRow
  pub operations : List (Text × Operation)

abbrev pub read_part : PartRow → PartRow
read_part r = record r {
  sku = take 40 r.sku;
  name = take 120 r.name;
  stock_available = r.stock_available % int_limit;
}

abbrev pub find_part : Text → TablesDb → Option PartRow
find_part k db = map_option read_part (map_get (λ r. r.id) k db.parts)

-- The lines with their ids.
abbrev pub identify_from : ℕ → Text → List OperationItem → List OperationItem
identify_from n k [] = []
identify_from n k (i ∷ is) = record i { id = n ∷ k } ∷ identify_from (suc n) k is

abbrev pub identify : Text → Operation → Operation
identify k op = record op { items = identify_from 0 k op.items }

abbrev pub lookup : Text → List (Text × Operation) → Option Operation
lookup k [] = none
lookup k ((j, op) ∷ ops) = if text_eq j k then some op else lookup k ops

abbrev pub find_operation : Text → TablesDb → Option Operation
find_operation k db = map_option (identify k) (lookup k db.operations)

abbrev pub ids_from : ℕ → Text → List NewItem → List Text
ids_from n k [] = []
ids_from n k (i ∷ is) = (n ∷ k) ∷ ids_from (suc n) k is

abbrev pub write_part : Text → ℕ → Date → PartRow → PartRow
write_part k stock now r =
    if text_eq r.id k then (record r { stock_available = stock; updated_at = now }) else r

abbrev pub put : Text → Operation → TablesDb → TablesDb
put k op db = record db { operations = (k, op) ∷ db.operations }

abbrev put_or_throw : Text → Option Operation → TablesDb → Result Exception (Operation × TablesDb)
put_or_throw k none db = err (unexpected (text "Record to update not found"))
put_or_throw k (some op) db = ok (op, put k op db)

abbrev pub mark : OperationStatus → Date → Operation → Operation
mark status now op = record op { status = status; released_at = some now }

abbrev keep_db : Result Exception (Operation × TablesDb) → Result Exception TablesDb
keep_db (ok (op, db)) = ok db
keep_db (err e) = err e

-- The order is the tail of the id.
abbrev pub update_item : Text → ℕ → ℕ → TablesDb → Result Exception TablesDb
update_item [] before after db = ok db
update_item (n ∷ k) before after db =
    keep_db
      (put_or_throw k (map_option (release_items (n ∷ k) before after) (find_operation k db)) db)

abbrev pub tables : Store
tables = record {
  Db = TablesDb;
  find_part = find_part;
  find_operation = find_operation;
  select_parts =
      λ ids db. sort_by (λ r. r.id) (keep_if (λ r. contains r.id ids) (map read_part db.parts));
  parts_by_sku = λ db. sort_by (λ r. r.sku) (map read_part db.parts);
  update_part = λ k stock now db. ok (record db { parts = map (write_part k stock now) db.parts });
  create_operation = λ new db.
      let op = stored (ids_from 0 new.order_id new.items) new in ok (op, put new.order_id op db);
  update_item = update_item;
  update_operation =
      λ k status now db. put_or_throw k (map_option (mark status now) (find_operation k db)) db;
}
