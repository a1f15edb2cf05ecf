-- ===== src/Inventory/Tests/Refusals.antt =====
-- Runs of reservations that the inventory refuses.
use tarea_integracion_sistem.Prelude.{◌≡◌, refl, [], ◌∷◌}
use tarea_integracion_sistem.Prelude.Result.{err}
use tarea_integracion_sistem.Prelude.Tx.{commits}
use tarea_integracion_sistem.Text.{text_eq}
use tarea_integracion_sistem.Js.{map_get}
use mathlib.Core.List.{Perm}
use tarea_integracion_sistem.Prelude.{◌⊎◌, some}
use tarea_integracion_sistem.Inventory.Store.{Operation}
use tarea_integracion_sistem.Inventory.Request.{request_fingerprint}
use tarea_integracion_sistem.Inventory.Request.Parsing.{part_ids}
use tarea_integracion_sistem.Inventory.Stock.Reserving.{IsFresh-IsDistinct}
use tarea_integracion_sistem.Inventory.Stock.Release.{returned}
use tarea_integracion_sistem.Inventory.Errors.{
  reservation_already_released, order_id_conflict, StockShortage, inventory, parts_not_found,
  insufficient_stock,
}
use tarea_integracion_sistem.Inventory.Store.Tables.{TablesDb, tables, find_part, find_operation}
use tarea_integracion_sistem.Inventory.Store.Tables.Laws.{tables_laws}
use tarea_integracion_sistem.Inventory.Stock.{reserve}
use tarea_integracion_sistem.Inventory.Stock.Rejecting.{
  absent, short, released_is_terminal, reserve_rejects_absent, reserve_rejects_short,
}
use tarea_integracion_sistem.Inventory.Tests.{
  order_a, later, operation, find_held, parse_example, part_b, noon, row_a, row_b, command, no_hash,
  lost,
}

abbrev no_filter_db : TablesDb
no_filter_db = record { parts = row_a ∷ []; operations = [] }

filter_absent : absent (λ k. find_part k no_filter_db) command.items ≡ part_b ∷ []
unfolding map_get text_eq
filter_absent = refl

absent_example :
    reserve tables no_hash noon lost command no_filter_db
    ≡ (err (inventory (parts_not_found (part_b ∷ []))), no_filter_db)
absent_example =
    reserve_rejects_absent tables tables_laws no_hash noon lost command no_filter_db part_b [] refl
      filter_absent

abbrev few_filters_db : TablesDb
few_filters_db = record {
  parts = row_a ∷ record row_b { stock_available = 3 } ∷ [];
  operations = [];
}

abbrev filters_short : StockShortage
filters_short = record { part_id = part_b; requested = 9; available = 3 }

none_absent : absent (λ k. find_part k few_filters_db) command.items ≡ []
unfolding map_get text_eq
none_absent = refl

filters_are_short : short (λ k. find_part k few_filters_db) command.items ≡ filters_short ∷ []
unfolding map_get text_eq
filters_are_short = refl

short_example :
    reserve tables no_hash noon commits command few_filters_db
    ≡ (err (inventory (insufficient_stock (filters_short ∷ []))), few_filters_db)
short_example =
    reserve_rejects_short tables tables_laws no_hash noon commits command few_filters_db
      filters_short [] refl none_absent filters_are_short

-- The order of the command, released.
abbrev closed : Operation
closed = record (returned find_held noon operation) {
  request_hash = request_fingerprint no_hash command.items;
}

abbrev over_db : TablesDb
over_db = record { parts = row_a ∷ row_b ∷ []; operations = (order_a, closed) ∷ [] }

over_there : find_operation command.order_id over_db ≡ some closed
unfolding text_eq
over_there = refl

terminal_example :
    Perm command.items command.items
      × (reserve tables no_hash later commits command over_db
          ≡ (err (inventory (reservation_already_released command.order_id)), over_db))
    ⊎ ¬ Perm command.items command.items
      × (reserve tables no_hash later commits command over_db
          ≡ (err (inventory (order_id_conflict command.order_id)), over_db))
terminal_example =
    released_is_terminal tables tables_laws no_hash later commits command over_db closed
      command.items over_there refl refl parse_example.items parse_example.items
      (IsFresh-IsDistinct (part_ids command.items) parse_example.distinct) (λ e. e)
