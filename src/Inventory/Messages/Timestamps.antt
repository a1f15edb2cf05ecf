-- ===== src/Inventory/Messages/Timestamps.antt =====
-- The timestamps of the messages are in the range of their type and lose nothing.
use tarea_integracion_sistem.Prelude.{ℕ, ◌+◌, ◌*◌, ◌-◌, ◌%◌, ◌<◌, ◌≡◌, refl, arith}
use tarea_integracion_sistem.Prelude.Int.{ℤ, pos, negsuc, pos_part, neg_part}
use tarea_integracion_sistem.Prelude.Result.{ok}
use tarea_integracion_sistem.Js.{at}
use tarea_integracion_sistem.Inventory.Messages.{ProtoTimestamp, to_proto_timestamp}

-- The milliseconds of a date are its seconds and a whole number of milliseconds below 1000, which
-- the nanoseconds are made of, also before 1970; so no two dates have one timestamp, and the
-- nanoseconds are in [0, 1e9).
pub to_proto_timestamp-floor :
    (millis : ℤ)
    → (t : ProtoTimestamp) × (rest : ℕ) × (to_proto_timestamp (at millis) ≡ ok t)
      × (t.nanos ≡ pos (rest * 1000000))
      × (rest * 1000000 < 1000000000)
      × (pos_part millis + neg_part t.seconds * 1000
          ≡ neg_part millis + (pos_part t.seconds * 1000 + rest))
unfolding to_proto_timestamp
to_proto_timestamp-floor (pos n) = (_, n % 1000, refl, ground arith, omega arith, omega arith)
to_proto_timestamp-floor (negsuc n) =
    (_, 999 - n % 1000, refl, ground arith, omega arith, omega arith)
