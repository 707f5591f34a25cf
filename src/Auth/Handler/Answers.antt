-- ===== src/Auth/Handler/Answers.antt =====
-- What a handler from the constructor answers.
use sihkaromicro.Prelude.{◌≡◌, ◌⊎◌, inl, inr, Option, arith, ◌==◌, Bool-cases}
use sihkaromicro.Runtime.Errors.{status, Code, ok, err, Result-cases}
use sihkaromicro.Auth.Handler.{
  Keycloak, LoginRequest, LoginResponse, Http, new_auth_grpc, login, recover, token_url,
  password_form,
}

-- Behind the recovery, a login at a handler from its constructor never ends in Unauthenticated: it
-- answers tokens or an internal error, whatever Keycloak says and whatever logger is given.
pub login-new_auth_grpc :
    (http : Http) (cfg : Keycloak) (log : Option (Unit {0})) (req : LoginRequest) (s : http.State)
    → ((response : LoginResponse) × (recover (login http (new_auth_grpc cfg log) req s).0
          ≡ ok response))
      ⊎ (recover (login http (new_auth_grpc cfg log) req s).0
          ≡ err (status Code.internal "internal error"))
unfolding new_auth_grpc login recover
login-new_auth_grpc http cfg log req s =
    elim (Result-cases (http.post_form (token_url cfg) (password_form cfg req) s).0) [
      | inr (e, failed) ↦ inr (ground arith)
      | inl (resp, posted) ↦ elim (Bool-cases (resp.status_code == 401)) [
        | inl refused ↦ inr (ground arith)
        | inr accepted ↦ inl (http.decode resp.body, ground arith)
      ]
    ]
