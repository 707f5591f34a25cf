-- ===== src/Sources/Server.antt =====
-- `New` of sources/internal/app/grpc/app.go: the methods that are registered, and the interceptors
-- around them. The names of the methods are those of proto/sources/sources_grpc.pb.go; the server of
-- the health service is a parameter.
use sihkaromicro.Prelude.{ℕ, ◌≡◌, refl, ◌∙◌, inl, inr, String, List, [], ◌∷◌}
use sihkaromicro.Runtime.Errors.{Result, returned, Result-cases}
use sihkaromicro.Runtime.Context.{Context}
use sihkaromicro.Runtime.Grpc.{
  Handler, Interceptor, chain, start_call, finish_call, Middleware, MiddlewareLaws, beside, seen,
  chain-recovered,
}
use sihkaromicro.Sources.Proto.{
  UploadSourceResponse, RetryJobRequest, RetryJobResponse, GetSourceRequest, SourceResponse,
  ListSourcesRequest, ListSourcesResponse, DeleteSourceRequest, DeleteSourceResponse,
}
use sihkaromicro.Sources.Ports.{Ports, World}
use sihkaromicro.Sources.Interceptor.{
  Verifier, authorize, unary, recovered, recover_by-recovered, serve,
}
use sihkaromicro.Sources.Handler as Handlers
use sihkaromicro.Sources.Handler.Chunks.{Event}

pub data Method : Type 0 where
  upload_source get_source list_sources delete_source retry_job health_check : Method

unfoldable pub full_name : Method → String
full_name upload_source = "/sources.v1.SourcesService/UploadSource"
full_name get_source = "/sources.v1.SourcesService/GetSource"
full_name list_sources = "/sources.v1.SourcesService/ListSources"
full_name delete_source = "/sources.v1.SourcesService/DeleteSource"
full_name retry_job = "/sources.v1.SourcesService/RetryJob"
full_name health_check = "/grpc.health.v1.Health/Check"

-- A stream of an upload is what its `Recv` answers.
abbrev pub Input : Method → Type 0
Input upload_source = List Event
Input get_source = GetSourceRequest
Input list_sources = ListSourcesRequest
Input delete_source = DeleteSourceRequest
Input retry_job = RetryJobRequest
Input health_check = Unit

abbrev pub Output : Type 0 → Method → Type 0
Output Status upload_source = UploadSourceResponse
Output Status get_source = SourceResponse
Output Status list_sources = ListSourcesResponse
Output Status delete_source = DeleteSourceResponse
Output Status retry_job = RetryJobResponse
Output Status health_check = Status

-- `interceptor.AuthInterceptor`, which treats all methods alike.
abbrev pub auth : {W : Type 0} → Verifier → Interceptor W
auth v = record { around = λ method handler. unary v handler }

-- `NewUnaryRecoveryInterceptor` and `NewUnaryLoggerInterceptor`; those for streams are alike.
abbrev pub new_recovery_interceptor : {W : Type 0} (M : Middleware) → Interceptor (W × M.Lines)
new_recovery_interceptor M = M.recovery recovered

abbrev pub new_logger_interceptor : {W : Type 0} (M : Middleware) → Interceptor (W × M.Lines)
new_logger_interceptor M = M.logging (start_call ∷ finish_call ∷ [])

-- The two chains have the same three interceptors.
unfoldable pub interceptors :
    {W : Type 0} (M : Middleware) → Verifier → List (Interceptor (W × M.Lines))
interceptors M v = new_recovery_interceptor M ∷ new_logger_interceptor M ∷ auth v ∷ []

module _ (M : Middleware) (v : Verifier) (E : Ports) (detect : List ℕ → String) {Status : Type 0}
    (health : Result Status) where
  -- What is registered under a method.
  unfoldable pub registered : (m : Method) → Input m → Handler (World E) (Output Status m)
  registered upload_source events = Handlers.upload_source E detect events
  registered get_source req = Handlers.get_source E req
  registered list_sources req = Handlers.list_sources E req
  registered delete_source req = Handlers.delete_source E req
  registered retry_job req = Handlers.retry_job E req
  registered health_check req = λ ctx w. (returned health, w)

  unfoldable pub answer : (m : Method) → Input m → Handler (World E × M.Lines) (Output Status m)
  answer m input = chain (interceptors M v) (full_name m) (beside (registered m input))

unary-beside :
    {W L A : Type 0} (v : Verifier) (handler : Handler W A) (ctx : Context) (w : W) (lines : L)
    → seen (unary v (beside handler) ctx (w, lines)) ≡ unary v handler ctx w
unfolding unary
unary-beside v handler ctx w lines = elim (Result-cases (authorize v ctx)) [
  | inl (ctx', admitted) ↦ rw admitted refl
  | inr (e, refused) ↦ rw refused refl
]

-- Over middleware that recovers panics and passes answers on: the server answers each call of each
-- method with an error or a response and never panics, and this answer and the state of the service
-- are those of `serve` for the handler of the method.
pub answer-serve :
    (M : Middleware) (v : Verifier) (E : Ports) (detect : List ℕ → String) {Status : Type 0}
    (health : Result Status)
    → MiddlewareLaws M
    → (m : Method) (input : Input m) (ctx : Context) (w : World E) (lines : M.Lines)
    → let (r, w') = serve v (registered M v E detect health m input) ctx w in
      seen (answer M v E detect health m input ctx (w, lines)) ≡ (returned r, w')
unfolding answer interceptors serve chain
answer-serve M v E detect health L m input ctx w lines =
    let handler = registered M v E detect health m input in
    chain-recovered M L recovered (start_call ∷ finish_call ∷ []) (auth v ∷ []) (full_name m)
      (beside handler) (unary v handler) ctx w lines (λ before. unary-beside v handler ctx w before)
    ∙ rw (recover_by-recovered (unary v handler ctx w).0) refl
