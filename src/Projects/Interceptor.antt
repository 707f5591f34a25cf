-- ===== src/Projects/Interceptor.antt =====
-- projects/internal/interceptor/auth.go. `authorize` and `MustUserIDFromCtx` have the statements of
-- the sources service's interceptor, whose definitions are used.
use sihkaromicro.Prelude.{Bool, ◌||◌, String, str_eq, if◌then◌else◌}
use sihkaromicro.Runtime.Errors.{Result, Outcome}
use sihkaromicro.Runtime.Context.{Context}
use sihkaromicro.Sources.Interceptor as Auth
use sihkaromicro.Sources.Interceptor.{Verifier, Handler, admit, recover}

abbrev pub Claims : Type 0
Claims = Auth.Claims

unfoldable pub is_public : String → Bool
is_public method =
    str_eq method "/grpc.health.v1.Health/Check" || str_eq method "/grpc.health.v1.Health/Watch"

abbrev pub authorize : Verifier → Context → Result Context
authorize = Auth.authorize

abbrev pub must_user_id_from_ctx : Context → Outcome String
must_user_id_from_ctx = Auth.must_user_id_from_ctx

abbrev pub user_id_from_ctx : Context → Result String
user_id_from_ctx = Auth.user_id_from_ctx

unfoldable pub unary : {W A : Type 0} → Verifier → String → Handler W A → Handler W A
unary v method handler ctx w =
    if is_public method then handler ctx w else admit v handler (authorize v ctx) w

-- The chain of projects/internal/app/grpc/app.go: recovery outside, then logging, then this.
unfoldable pub serve : {W A : Type 0} → Verifier → String → Handler W A → Context → W → Result A × W
serve v method handler ctx w = let (o, w') = unary v method handler ctx w in (recover o, w')
