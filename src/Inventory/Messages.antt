-- ===== src/Inventory/Messages.antt =====
-- apps/inventory-grpc/src/grpc/inventory.proto-types.ts, the messages that the service sends, and
-- apps/inventory-grpc/src/grpc/timestamp.ts, the conversion of dates.
pub mod Timestamps
use tarea_integracion_sistem.Prelude.{ℕ, Bool, List, Option}
use tarea_integracion_sistem.Prelude.Int.{ℤ, floor_div, sub_scaled, scale}
use tarea_integracion_sistem.Prelude.Result.{Result, ok, err}
use tarea_integracion_sistem.Text.{Text, text}
use tarea_integracion_sistem.Js.{Date, at, invalid}
use tarea_integracion_sistem.Inventory.Errors.{Exception, unexpected}

pub record ProtoTimestamp : Type 0 where
  pub seconds : ℤ
  pub nanos : ℤ

pub record ProtoPart : Type 0 where
  pub id : Text
  pub sku : Text
  pub name : Text
  pub stock_available : ℕ
  pub updated_at : ProtoTimestamp

-- The `part_id` is `none` where it is no string.
pub record GetPartRequest : Type 0 where
  pub part_id : Option Text

pub record GetPartResponse : Type 0 where
  pub part : ProtoPart

pub record ListPartsResponse : Type 0 where
  pub parts : List ProtoPart

pub record StockMutationItem : Type 0 where
  pub part : ProtoPart
  pub quantity : ℕ
  pub stock_before : ℕ
  pub stock_after : ℕ

-- Also the answer to a release.
pub record ReserveStockResponse : Type 0 where
  pub order_id : Text
  pub items : List StockMutationItem
  pub processed_at : ProtoTimestamp
  pub replayed : Bool

unfoldable pub to_proto_timestamp : Date → Result Exception ProtoTimestamp
to_proto_timestamp invalid = err (unexpected (text "cannot convert an invalid Date to a Timestamp"))
to_proto_timestamp (at millis) =
    let seconds = floor_div millis 1000 in
    ok (record { seconds = seconds; nanos = scale (sub_scaled millis seconds 1000) 1000000 })
