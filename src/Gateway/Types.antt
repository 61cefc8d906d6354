-- ===== src/Gateway/Types.antt =====
-- What passes through the routes of gateway_service/src/main.cpp: requests, responses and the messages of
-- gateway_service/proto/gateway.proto, and what the gateway stands between.
use wizz_mania.Prelude.{ℕ, Bool, List, Option, String}
use wizz_mania.Prelude.Text.{Str}
use wizz_mania.Prelude.Int.{ℤ}
use wizz_mania.Auth.Database as AuthDatabase
use wizz_mania.Auth.Service.{AuthManager, PasswordHasher, TokenStatus, LoginResponse}
use wizz_mania.Auth.Refresh.{RefreshResponse}
use wizz_mania.Auth.Admin.{Outcome, UserEntry}
use wizz_mania.Messaging.Service.{Service, SendAck}
use wizz_mania.Messaging.Rooms.{RoomResponse}

pub record HttpRequest : Type 0 where
  pub authorization : Option Str
  pub limit : Option Str
  pub body : Str

pub record HttpResponse : Type 0 where
  pub status : ℕ
  pub body : Str

-- The messages of gateway.proto and of the services that become response bodies.
pub record ConversationEntry : Type 0 where
  pub conversation_id : Str
  pub last_message : Str
  pub last_timestamp_unix : ℤ

pub record MessageEntry : Type 0 where
  pub message_id : Str
  pub conversation_id : Str
  pub sender_id : Str
  pub content : Str
  pub timestamp_unix : ℤ

pub record RoomEntry : Type 0 where
  pub room_id : Str
  pub title : Str

pub data Message : Type 0 where
  token_status : TokenStatus → Message
  user_list : List UserEntry → Message
  outcome : Outcome → Message
  login_response : LoginResponse → Message
  refresh_response : RefreshResponse → Message
  conversation_list : List ConversationEntry → Message
  message_list : List MessageEntry → Message
  send_ack : SendAck → Message
  room_list : List RoomEntry → Message
  room_response : RoomResponse → Message

pub record Credentials : Type 0 where
  pub username : Str
  pub password : Str

pub record NewAccount : Type 0 where
  pub full_name : Str
  pub email : Str
  pub password : Str
  pub role_name : Str

pub record NewRoom : Type 0 where
  pub title : Str
  pub participant_emails : List Str

-- `MessageToJsonString` and `JsonStringToMessage`, for each type; `none` where they fail.
pub record Json : Type 0 where
  pub print : Message → Option Str
  pub parse_login : Str → Option Credentials
  pub parse_refresh : Str → Option Str
  pub parse_register : Str → Option NewAccount
  pub parse_content : Str → Option Str
  pub parse_room : Str → Option NewRoom

-- A call that the network loses, on its way to the service or back.
pub record LinkFault : Type 0 where
  pub delivered : Bool
  pub timed_out : Bool
  pub message : String

-- `before` is the order of the database's collation.
pub record Env : Type 0 where
  pub manager : AuthManager
  pub hasher : PasswordHasher
  pub json : Json
  pub before : Str → Str → Bool

-- The services share one database, whose table `users` is seen from both: Gateway.Users keeps the two
-- views in step. `auth` and `messaging` have connections of their own.
pub record Cloud : Type 0 where
  pub auth : AuthDatabase.Db
  pub messaging : Service
  pub links : List (Option LinkFault)
