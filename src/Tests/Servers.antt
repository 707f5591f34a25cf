-- ===== src/Tests/Servers.antt =====
-- The servers over interceptors that keep the names of the methods they are called for.
use sihkaromicro.Prelude.{pos, ◌≡◌, refl, true, some, String, List, [], ◌∷◌}
use sihkaromicro.Runtime.Errors.{Result, ok, err, status, Code, returned}
use sihkaromicro.Runtime.Context.{background}
use sihkaromicro.Runtime.Grpc.{Middleware, MiddlewareLaws, recover_by, seen, chain}
use sihkaromicro.Sources.Proto.{RetryJobRequest}
use sihkaromicro.Sources.Interceptor.{serve, unary, authorize}
use sihkaromicro.Sources.Handler.{retry_job}
use sihkaromicro.Sources.Server as Sources
use sihkaromicro.Sources.Server.{answer-serve}
use sihkaromicro.Auth.Handler.{new_auth_grpc, login}
use sihkaromicro.Auth.Server as Auth
use sihkaromicro.Jobs.Server as Jobs
use sihkaromicro.Projects.Server as Projects
use sihkaromicro.Projects.Interceptor
use sihkaromicro.Projects.Interceptor.{is_public}
use sihkaromicro.Tests.Memory.{ports, bucket}
use sihkaromicro.Tests.Service.{stored}
use sihkaromicro.Tests.Handler.{detect, gate, ann}
use sihkaromicro.Tests.Projects.{table}
use sihkaromicro.Tests.Auth.{refusing, keycloak, credentials}

abbrev middleware : Middleware
middleware = record {
  Lines = List String;
  recovery = λ f. record {
    around = λ method handler ctx s. let (o, s') = handler ctx s in (returned (recover_by f o), s');
  };
  logging = λ events. record {
    around = λ method handler ctx (w, lines). handler ctx (w, method ∷ lines);
  };
}

laws : MiddlewareLaws middleware
laws = record {
  around-recovery = λ f method handler ctx s. refl;
  recovery_state = λ f method handler ctx s. refl;
  around-logging = λ events method handler ctx w lines. (method ∷ lines, refl, refl);
}

-- What a health check is answered.
abbrev serving : Result String
serving = ok "SERVING"

-- A health check of the sources service has to authenticate, one of the projects service has not.
sources_health :
    seen (
      Sources.answer middleware gate
        (ports bucket true)
        detect
        serving
        Sources.health_check
        tt
        background
        (stored, []))
    ≡ (returned (err (status Code.unauthenticated "missing metadata")), stored)
unfolding Sources.answer Sources.interceptors Sources.registered chain unary authorize
sources_health = refl

projects_health :
    seen
      (Projects.answer middleware gate table serving Projects.health_check tt background ([], []))
    ≡ (returned serving, [])
unfolding Projects.answer Projects.full_name Projects.interceptors Projects.registered chain
    Interceptor.unary is_public
projects_health = refl

-- A wrong password at the auth service.
auth_login :
    seen (
      Auth.answer middleware refusing keycloak
        (some tt)
        serving
        Auth.login
        credentials
        background
        (tt, []))
    ≡ (returned (err (status Code.internal "internal error")), tt)
unfolding Auth.answer Auth.interceptors Auth.registered Auth.recovered chain new_auth_grpc login
auth_login = refl

-- Nobody has to authenticate at the jobs service.
jobs_get :
    seen (Jobs.answer {A = String} middleware Jobs.get_job background (tt, []))
    ≡ (returned (err (status Code.unimplemented "method GetJob not implemented")), tt)
unfolding Jobs.answer Jobs.interceptors Jobs.registered chain
jobs_get = refl

abbrev req : RetryJobRequest
req = record { source_id = pos 1; project_id = pos 5 }

answer-serve_example :
    let (r, w) = serve gate (retry_job (ports bucket true) req) ann stored in
    seen (
      Sources.answer middleware gate
        (ports bucket true)
        detect
        serving
        Sources.retry_job
        req
        ann
        (stored, []))
    ≡ (returned r, w)
unfolding Sources.registered
answer-serve_example =
    answer-serve middleware gate (ports bucket true) detect serving laws Sources.retry_job req ann
      stored []
