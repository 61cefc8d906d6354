-- ===== src/Gateway/Service.antt =====
-- `GatewayServiceImpl` of gateway_service/src/GatewayServiceImpl.cpp: the RPC of the gateway.
use wizz_mania.Prelude.{ℕ, not, [], if◌then◌else◌}
use wizz_mania.Prelude.Text.{Str}
use wizz_mania.Grpc.{Status, success}
use wizz_mania.Auth.Service.{no_login, login}
use wizz_mania.Messaging.Service.{is_ok}
use wizz_mania.Gateway.Http.{Env, Gateway, Credentials, ◌>>=◌, reply, auth_rpc}

-- `gateway::LoginResponse`
pub record TokenPair : Type 0 where
  pub access_token : Str
  pub refresh_token : Str
  pub expires_in : ℕ

abbrev pub no_tokens : TokenPair
no_tokens = record { access_token = []; refresh_token = []; expires_in = 0 }

-- `Login`; `random` is what `random_hex` yields in the authentication service.
unfoldable pub gateway_login : Str → Env → Credentials → Gateway (Status × TokenPair)
unfolding auth_rpc login
gateway_login random env request =
    auth_rpc no_login (login env.manager env.hasher random request.username request.password)
    >>= λ r.
        if not (is_ok r.0)
        then reply (r.0, no_tokens)
        else reply (
          success,
          record {
            access_token = r.1.access_token;
            refresh_token = r.1.refresh_token;
            expires_in = r.1.expires_in;
          },
        )
