-- ===== src/Auth/Handler.antt =====
-- auth/internal/handler/auth.go. Keycloak and what `json.Decoder` leaves in the result are
-- parameters. A nil logger panics when it is called.
pub mod Answers
use sihkaromicro.Prelude.{
  ℕ, ℤ, String, ◌<>◌, Option, none, some, List, [], ◌∷◌, ◌==◌, if◌then◌else◌,
}
use sihkaromicro.Runtime.Errors.{
  Error, status, Code, Result, ok, err, Outcome, returned, panicked, Panic, runtime_error,
}
use sihkaromicro.Runtime.Calls.{Call}

pub record Keycloak : Type 0 where
  pub url : String
  pub realm : String
  pub client_id : String

pub record LoginRequest : Type 0 where
  pub username : String
  pub password : String

pub record RefreshRequest : Type 0 where
  pub refresh_token : String

pub record LoginResponse : Type 0 where
  pub access_token : String
  pub refresh_token : String
  pub expires_in : ℤ

-- `log` is nil or a logger, whose lines are not modelled.
pub record AuthHandler : Type 0 where
  pub cfg : Keycloak
  pub log : Option (Unit {0})

-- `&AuthHandler{cfg: cfg}`: the logger is not kept.
unfoldable pub new_auth_grpc : Keycloak → Option (Unit {0}) → AuthHandler
new_auth_grpc cfg log = record { cfg = cfg; log = none }

pub record Response : Type 0 where
  pub status_code : ℕ
  pub body : String

-- `http.PostForm`, and the result after `json.NewDecoder(body).Decode(&result)`, whose error the
-- code drops.
pub record Http : Type 1 where
  pub State : Type 0
  pub post_form : String → List (String × String) → Call State Response
  pub decode : String → LoginResponse

-- `h.log.Error(...)`, and then `return nil, e`.
abbrev log_and_fail : {A : Type 0} → Option (Unit {0}) → Error → Outcome A
log_and_fail none e = panicked (runtime_error "invalid memory address or nil pointer dereference")
log_and_fail (some _) e = returned (err e)

abbrev pub token_url : Keycloak → String
token_url cfg = cfg.url <> ("/realms/" <> (cfg.realm <> "/protocol/openid-connect/token"))

abbrev pub password_form : Keycloak → LoginRequest → List (String × String)
password_form cfg req =
    ("grant_type", "password")
    ∷ ("client_id", cfg.client_id)
    ∷ ("username", req.username)
    ∷ ("password", req.password)
    ∷ []

module _ (http : Http) where
  abbrev logged_in : AuthHandler → Result Response → Outcome LoginResponse
  logged_in h (err _) = log_and_fail h.log (status Code.internal "keycloak unavailable")
  logged_in h (ok resp) =
      if resp.status_code == 401
      then log_and_fail h.log (status Code.unauthenticated "invalid credentials")
      else returned (ok (http.decode resp.body))

  unfoldable pub login :
      AuthHandler → LoginRequest → http.State → Outcome LoginResponse × http.State
  login h req s =
      let (r, s') = http.post_form (token_url h.cfg) (password_form h.cfg req) s in
      (logged_in h r, s')

  abbrev refreshed : Result Response → Outcome LoginResponse
  refreshed (err _) = returned (err (status Code.internal "keycloak unavailable"))
  refreshed (ok resp) =
      if resp.status_code == 401
      then returned (err (status Code.unauthenticated "invalid refresh token"))
      else returned (ok (http.decode resp.body))

  unfoldable pub refresh :
      AuthHandler → RefreshRequest → http.State → Outcome LoginResponse × http.State
  refresh h req s =
      let (r, s') =
        http.post_form (h.cfg.url <> ("/realms/" <> h.cfg.realm))
          (("grant_type", "refresh_token")
            ∷ ("client_id", h.cfg.client_id)
            ∷ ("refresh_token", req.refresh_token)
            ∷ [])
          s in
      (refreshed r, s')

-- The recovery of auth/internal/app/grpc/app.go: any panic is an internal error.
unfoldable pub recover : {A : Type 0} → Outcome A → Result A
recover (returned r) = r
recover (panicked p) = err (status Code.internal "internal error")
