-- ===== src/Jobs/Interceptor.antt =====
-- jobs/internal/interceptor/auth.go, whose statements are those of the sources service's
-- interceptor. jobs/internal/app/grpc/app.go does not put it into its chain.
use sihkaromicro.Prelude.{true, String}
use sihkaromicro.Runtime.Errors.{Result, Outcome}
use sihkaromicro.Runtime.Context.{Context}
use sihkaromicro.Startup.Config.{KeycloakCfg}
use sihkaromicro.Startup.Oidc as Oidc
use sihkaromicro.Startup.Oidc.{Provider}
use sihkaromicro.Sources.Interceptor as Auth
use sihkaromicro.Sources.Interceptor.{Verifier, Handler}

abbrev pub Claims : Type 0
Claims = Auth.Claims

abbrev pub new_auth_interceptor : (String → Result Provider) → KeycloakCfg → Result Verifier
new_auth_interceptor new_provider cfg = Oidc.new_auth_interceptor new_provider true cfg

abbrev pub authorize : Verifier → Context → Result Context
authorize = Auth.authorize

abbrev pub unary : {W A : Type 0} → Verifier → Handler W A → Handler W A
unary v handler = Auth.unary v handler

abbrev pub must_user_id_from_ctx : Context → Outcome String
must_user_id_from_ctx = Auth.must_user_id_from_ctx

abbrev pub user_id_from_ctx : Context → Result String
user_id_from_ctx = Auth.user_id_from_ctx
