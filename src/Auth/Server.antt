-- ===== src/Auth/Server.antt =====
-- `New` of auth/internal/app/grpc/app.go: the methods that are registered, and the interceptors
-- around them. The names of the methods are those of proto/auth/auth_grpc.pb.go; the server of the
-- health service is a parameter.
use sihkaromicro.Prelude.{◌≡◌, refl, ◌∙◌, String, Option, List, [], ◌∷◌}
use sihkaromicro.Runtime.Errors.{Error, status, Code, Result, Outcome, returned, panicked, Panic}
use sihkaromicro.Runtime.Context.{Context}
use sihkaromicro.Runtime.Grpc.{
  Handler, Interceptor, chain, start_call, finish_call, Middleware, MiddlewareLaws, recover_by,
  beside, seen, chain-recovered,
}
use sihkaromicro.Auth.Handler as Handlers
use sihkaromicro.Auth.Handler.{
  Keycloak, new_auth_grpc, LoginRequest, RefreshRequest, LoginResponse, Http, recover,
}

pub data Method : Type 0 where
  login refresh health_check : Method

unfoldable pub full_name : Method → String
full_name login = "/auth.Auth/Login"
full_name refresh = "/auth.Auth/Refresh"
full_name health_check = "/grpc.health.v1.Health/Check"

abbrev pub Input : Method → Type 0
Input login = LoginRequest
Input refresh = RefreshRequest
Input health_check = Unit

abbrev pub Output : Type 0 → Method → Type 0
Output Status login = LoginResponse
Output Status refresh = LoginResponse
Output Status health_check = Status

unfoldable pub recovered : Panic → Error
recovered p = status Code.internal "internal error"

-- Nobody has to authenticate.
unfoldable pub interceptors : {W : Type 0} (M : Middleware) → List (Interceptor (W × M.Lines))
interceptors M = M.recovery recovered ∷ M.logging (start_call ∷ finish_call ∷ []) ∷ []

module _ (M : Middleware) (http : Http) (cfg : Keycloak) (log : Option (Unit {0})) {Status : Type 0}
    (health : Result Status) where
  -- What is registered under a method.
  unfoldable pub registered : (m : Method) → Input m → Handler http.State (Output Status m)
  registered login req = λ ctx s. Handlers.login http (new_auth_grpc cfg log) req s
  registered refresh req = λ ctx s. Handlers.refresh http (new_auth_grpc cfg log) req s
  registered health_check req = λ ctx s. (returned health, s)

  unfoldable pub answer : (m : Method) → Input m → Handler (http.State × M.Lines) (Output Status m)
  answer m input = chain (interceptors M) (full_name m) (beside (registered m input))

recover_by-recover : {A : Type 0} (o : Outcome A) → recover_by recovered o ≡ recover o
unfolding recovered recover
recover_by-recover (returned r) = refl
recover_by-recover (panicked p) = refl

-- Over middleware that recovers panics and passes answers on, a client gets what the handler of the
-- method returns, or an internal error where it panics, whoever the client is.
pub answer-recover :
    (M : Middleware) (http : Http) (cfg : Keycloak) (log : Option (Unit {0})) {Status : Type 0}
    (health : Result Status)
    → MiddlewareLaws M
    → (m : Method) (input : Input m) (ctx : Context) (s : http.State) (lines : M.Lines)
    → let (o, s') = registered M http cfg log health m input ctx s in
      seen (answer M http cfg log health m input ctx (s, lines)) ≡ (returned (recover o), s')
unfolding answer interceptors chain
answer-recover M http cfg log health L m input ctx s lines =
    let handler = registered M http cfg log health m input in
    chain-recovered M L recovered (start_call ∷ finish_call ∷ []) [] (full_name m) (beside handler)
      handler ctx s lines (λ before. refl)
    ∙ rw (recover_by-recover (handler ctx s).0) refl
