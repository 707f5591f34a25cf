-- ===== src/Tests/Auth.antt =====
-- A Keycloak that refuses every password.
use sihkaromicro.Prelude.{pos, ◌≡◌, ◌⊎◌, some}
use sihkaromicro.Runtime.Errors.{ok, err, status, Code}
use sihkaromicro.Auth.Handler.{
  Keycloak, LoginRequest, LoginResponse, Http, new_auth_grpc, login, recover,
}
use sihkaromicro.Auth.Handler.Answers.{login-new_auth_grpc}

abbrev pub refusing : Http
refusing = record {
  State = Unit;
  post_form = λ url form s. (ok (record { status_code = 401; body = "" }), s);
  decode = λ body. record { access_token = ""; refresh_token = ""; expires_in = pos 0 };
}

abbrev pub keycloak : Keycloak
keycloak = record { url = "http://keycloak"; realm = "main"; client_id = "web" }

abbrev pub credentials : LoginRequest
credentials = record { username = "ann"; password = "wrong" }

login-new_auth_grpc_example :
    ((response : LoginResponse) × (recover
          (login refusing (new_auth_grpc keycloak (some tt)) credentials tt).0
        ≡ ok response))
    ⊎ (recover (login refusing (new_auth_grpc keycloak (some tt)) credentials tt).0
        ≡ err (status Code.internal "internal error"))
login-new_auth_grpc_example = login-new_auth_grpc refusing keycloak (some tt) credentials tt
