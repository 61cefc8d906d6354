-- ===== src/Gateway/Accounting.antt =====
-- What POST /register and DELETE /users/:id of gateway_service/src/main.cpp leave in the database.
use wizz_mania.Prelude.Result.{Result}
use wizz_mania.Auth.Database as AuthDatabase
use wizz_mania.Auth.Tables as AuthTables
use wizz_mania.Gateway.Http
use wizz_mania.Gateway.Http.{Gateway, Cloud, LinkFault, error_text}
use wizz_mania.Gateway.Joined.{IsJoined}

-- A computation of the gateway that keeps the two services' views of the users in step.
record Preserves {A : Type 0} (m : Gateway A) : Type 0 where
  keeps : (c : Cloud) → IsJoined c → IsJoined (m c).1
