-- ===== src/Lib.antt =====
-- SecureCloud: services of a messenger that speak gRPC, over one PostgreSQL database. A gateway
-- takes HTTP requests, has the authentication service validate the tokens that come with them, and
-- calls that service and the messaging service; clients call the file service themselves. The theorems are about the code of the services.
--
-- Which file models which part:
--   Prelude                the names that all share: lists, texts as lists of bytes, integers, maps
--   Base64                 services/messaging_service/src/utils/Base64.cpp (`encode`, `decode`) and
--                          `safe_b64_decode` of messaging_service.cpp
--   Number                 `std::stoi`, `std::stoll`, `std::to_string`; `parse_int` of
--                          services/messaging_service/src/messaging_service.cpp and
--                          auth_service/src/service/AuthServiceImpl.cpp; `try_parse_int64` of
--                          gateway_service/src/main.cpp
--   Keys                   the ids of rooms and the keys of direct messages: `parse_room_id`,
--                          `dm_conversation_key`, `is_room_id`, `is_numeric_id` of
--                          gateway_service/src/main.cpp, `parse_dm_key` of
--                          services/messaging_service/src/db/Database.cpp
--   Sql                    what the services see of PostgreSQL through libpqxx: transactions and
--                          connections that may be lost
--   Grpc                   `grpc::Status`
--   Messaging.Tables       the tables of init/schema.sql and the statements of
--   Messaging.Database     services/messaging_service/src/db/Database.cpp, and its methods
--   Messaging.Service, Messaging.Rooms, Messaging.Chat
--                          the handlers of services/messaging_service/src/messaging_service.cpp
--   Files.Disk, Files.Upload, Files.Serve
--                          services/file_service/src/FileServiceImpl.{h,cpp}
--   Auth.Tables, Auth.Database, Auth.Roles
--                          auth_service/src/db/Database.cpp
--   Auth.Service, Auth.Refresh, Auth.Admin
--                          the handlers of auth_service/src/service/AuthServiceImpl.cpp
--   Gateway.Types, Gateway.Http
--                          what the routes of gateway_service/src/main.cpp share: bearer tokens,
--                          errors, and the calls of the two services
--   Gateway.Users          the table `users`, which the two services share: what the calls that make
--                          or delete accounts do to the messaging service's tables, by the foreign
--                          keys of init/schema.sql
--   Gateway.Accounts, Gateway.Conversations, Gateway.Rooms
--                          its routes; Gateway.Routes is their table
--   Gateway.Service        gateway_service/src/GatewayServiceImpl.cpp
--   EnvLoader              auth_service/src/utils/EnvLoader.cpp and
--                          services/messaging_service/src/utils/EnvLoader.cpp
-- The other modules hold proofs, and are named for what they prove; Examples holds concrete inputs.
--
-- The state of a service is a record; an operation takes it and returns a new one with its result.
-- What the network, the server and the disk will do is part of the state, as lists of events: past
-- their ends nothing fails any more. A lock makes an operation one step, so that interleavings are
-- sequences of operations; the events of `ChatStream` calls interleave in `Messaging.Chat.chat`, where
-- `self.alive = false`, which takes no lock in the code, is a step like the others.
-- Signed 32-bit and 64-bit ranges are checked where the code parses numbers and where a sequence
-- of the database runs out. `send_chunks` runs on fuel: the length of the file, each step taking at
-- least one byte of it, is enough, which the theorem on downloads shows. `digits` runs on fuel, too:
-- one more than the number.
--
-- A route of the gateway runs the handlers of the services on their states, which `Gateway.Types.Cloud`
-- holds together; a call may be lost on its way there or back, as another list of events. Tables that
-- both services use are the messaging service's and the authentication service's own lists, and only
-- `users` is in both.
--
-- Not modelled: `AuthManager` and `PasswordHasher`, which are not in the repository and are a record
-- of functions here; httplib.h and the conversion of JSON, which are a request record and a record of
-- functions; the order of `std::unordered_map`; the Qt client; start-up code; `_putenv_s` of Windows;
-- generated code. The collation of the database is a parameter of `list_users` and `list_roles`.
pub mod Prelude
pub mod Number
pub mod Keys
pub mod Sql
pub mod Grpc
pub mod Messaging
pub mod Base64
pub mod Files
pub mod Auth
pub mod Gateway
pub mod EnvLoader
pub mod Examples
