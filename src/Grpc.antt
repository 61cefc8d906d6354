-- ===== src/Grpc.antt =====
-- `grpc::Status`, with the codes that the services use, and how a handler ends.
use wizz_mania.Prelude.{String}
use wizz_mania.Sql.{Exn}

pub data StatusCode : Type 0 where
  status_ok invalid_argument not_found already_exists permission_denied unauthenticated : StatusCode
  unimplemented unavailable deadline_exceeded internal unknown : StatusCode

pub record Status : Type 0 where
  pub code : StatusCode
  pub message : String

abbrev pub success : Status
success = record { code = status_ok; message = "" }

abbrev pub failed : StatusCode → String → Status
failed c m = record { code = c; message = m }

-- How a handler ends without a status: an exception leaves it, or it reads an object whose lifetime
-- is over.
pub data Stop : Type 0 where
  thrown : Exn → Stop
  dangling : Stop
