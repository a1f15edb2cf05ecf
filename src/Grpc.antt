-- ===== src/Grpc.antt =====
-- The status codes of gRPC, which both services use, and the body of a gRPC error.
use tarea_integracion_sistem.Prelude.{ℕ}
use tarea_integracion_sistem.Text.{Text}

-- `unlisted` is a number that names no status.
pub data GrpcStatus : Type 0 where
  ok_status canceled unknown invalid_argument deadline_exceeded not_found already_exists :
      GrpcStatus
  permission_denied resource_exhausted failed_precondition aborted out_of_range : GrpcStatus
  unimplemented internal unavailable data_loss unauthenticated : GrpcStatus
  unlisted : ℕ → GrpcStatus

pub record GrpcExceptionBody : Type 0 where
  pub code : GrpcStatus
  pub message : Text
