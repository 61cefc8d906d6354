-- ===== src/Gateway/Routes.antt =====
-- The table of routes of gateway_service/src/main.cpp, as httplib dispatches them: the texts are
-- what the patterns of the paths capture.
use wizz_mania.Prelude.Text.{Str}
use wizz_mania.Prelude.Int.{ℤ}
use wizz_mania.Gateway.Http.{Env, HttpRequest, HttpResponse, Gateway}
use wizz_mania.Gateway.Accounts.{
  health, me, users, delete_user_route, login_route, refresh_route, logout_route, register_route,
}
use wizz_mania.Gateway.Conversations.{conversations_route, messages_route, post_message_route}
use wizz_mania.Gateway.Rooms.{rooms_route, create_room_route, delete_room_route}

-- The routes that want a token of a valid session.
pub data Protected : Type 0 where
  get_me get_users post_logout post_register get_rooms post_rooms : Protected
  delete_users delete_rooms : Str → Protected

pub data Route : Type 0 where
  get_health post_refresh get_conversations : Route
  post_login get_messages : Str → Route
  post_messages : Str → ℤ → Route
  protected : Protected → Route

unfoldable pub handle_protected : Protected → Env → HttpRequest → Gateway HttpResponse
unfolding me users logout_route register_route rooms_route create_room_route delete_user_route
    delete_room_route
handle_protected get_me = me
handle_protected get_users = users
handle_protected post_logout = logout_route
handle_protected post_register = register_route
handle_protected get_rooms = rooms_route
handle_protected post_rooms = create_room_route
handle_protected (delete_users id) = delete_user_route id
handle_protected (delete_rooms id) = delete_room_route id

unfoldable pub handle : Route → Env → HttpRequest → Gateway HttpResponse
unfolding handle_protected health login_route refresh_route conversations_route messages_route
    post_message_route
handle get_health env req = health
handle (post_login random) env req = login_route random env req
handle post_refresh env req = refresh_route env req
handle get_conversations env req = conversations_route env req
handle (get_messages id) env req = messages_route id env req
handle (post_messages id time) env req = post_message_route id time env req
handle (protected p) env req = handle_protected p env req
