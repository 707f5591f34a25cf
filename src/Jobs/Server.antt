-- ===== src/Jobs/Server.antt =====
-- `New` of jobs/internal/app/grpc/app.go and jobs/internal/handler/sources.go: the handler is
-- `UnimplementedJobsServiceServer` of proto/jobs/jobs_grpc.pb.go, whose methods are those of the
-- package. No health service is registered, and `WatchJob`, a stream, has no interceptor.
use sihkaromicro.Prelude.{
  ◌≡◌, refl, inl, inr, Bool, true, false, Bool-cases, if◌then◌else◌, String, ◌<>◌, List, [], ◌∷◌,
}
use sihkaromicro.Runtime.Errors.{status, Code, err, returned}
use sihkaromicro.Runtime.Context.{Context}
use sihkaromicro.Runtime.Grpc.{
  Handler, Interceptor, chain, payload_received, payload_sent, Middleware, MiddlewareLaws, beside,
  seen, chain-recovered,
}
use sihkaromicro.Sources.Interceptor.{recovered}

pub data Method : Type 0 where
  create_job get_job list_jobs cancel_job watch_job : Method

abbrev pub name : Method → String
name create_job = "CreateJob"
name get_job = "GetJob"
name list_jobs = "ListJobs"
name cancel_job = "CancelJob"
name watch_job = "WatchJob"

unfoldable pub full_name : Method → String
full_name m = "/jobs.v1.JobsService/" <> name m

abbrev pub is_stream : Method → Bool
is_stream watch_job = true
is_stream create_job = false
is_stream get_job = false
is_stream list_jobs = false
is_stream cancel_job = false

-- Nobody has to authenticate, and the server is given no interceptors of streams.
unfoldable pub interceptors :
    {W : Type 0} (M : Middleware) → Method → List (Interceptor (W × M.Lines))
interceptors M m =
    if is_stream m
    then []
    else M.recovery recovered ∷ M.logging (payload_received ∷ payload_sent ∷ []) ∷ []

-- What is registered under a method, for any request and any type of response.
unfoldable pub registered : {W A : Type 0} → Method → Handler W A
registered m ctx w =
    (returned (err (status Code.unimplemented ("method " <> (name m <> " not implemented")))), w)

unfoldable pub answer : {W A : Type 0} (M : Middleware) → Method → Handler (W × M.Lines) A
answer M m = chain (interceptors M m) (full_name m) (beside (registered m))

-- Over middleware that passes answers on, each method is answered with an Unimplemented error that
-- names it, for any client, and changes nothing.
pub answer-is_unimplemented :
    (M : Middleware)
    → MiddlewareLaws M
    → {W A : Type 0} (m : Method) (ctx : Context) (w : W) (lines : M.Lines)
    → seen (answer {A = A} M m ctx (w, lines)) ≡ (
      returned (err (status Code.unimplemented ("method " <> (name m <> " not implemented")))),
      w,
    )
unfolding answer interceptors registered chain
answer-is_unimplemented M L {W} {A} m ctx w lines = elim (Bool-cases (is_stream m)) [
  | inl stream ↦ rw stream refl
  | inr unary ↦ rw unary (
      chain-recovered M L recovered (payload_received ∷ payload_sent ∷ []) [] (full_name m)
        (beside (registered {W = W} {A = A} m)) (registered m) ctx w lines (λ before. refl))
]
