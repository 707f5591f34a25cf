-- ===== src/Sources/Interceptor.antt =====
-- sources/internal/interceptor: auth.go and recovery.go, and the order in which
-- sources/internal/app/grpc/app.go chains them. The logger between them is in Sources.Server.
use sihkaromicro.Prelude.{
  ◌≡◌, refl, String, Option, none, some, List, [], ◌∷◌, str_eq, if◌then◌else◌,
}
use sihkaromicro.Runtime.Errors.{
  Error, status, Code, Result, ok, err, Outcome, returned, panicked, Panic, error_value,
  runtime_error,
}
use sihkaromicro.Runtime.Context.{Context, Metadata, values_of}
use sihkaromicro.Runtime.Text.{trim_prefix}
use sihkaromicro.Runtime.Grpc.{recover_by}
pub use sihkaromicro.Runtime.Grpc.{Handler}

pub record Claims : Type 0 where
  pub sub : String
  pub preferred_username : String
  pub email : String
  pub azp : String

-- The verifier of github.com/coreos/go-oidc/v3, which is not part of the repository.
pub record Verifier : Type 1 where
  pub Token : Type 0
  pub verify : Context → String → Result Token
  pub claims : Token → Result Claims

module _ (v : Verifier) where
  -- `token.Claims(&claims)`, and the user id in the context.
  abbrev claimed : Context → Result Claims → Result Context
  claimed ctx (err _) = err (status Code.unauthenticated "invalid claims")
  claimed ctx (ok c) = ok (record ctx { user_id = some c.sub })

  abbrev verified : Context → Result v.Token → Result Context
  verified ctx (err _) = err (status Code.unauthenticated "invalid token")
  verified ctx (ok token) = claimed ctx (v.claims token)

  abbrev with_values : Context → List String → Result Context
  with_values ctx [] = err (status Code.unauthenticated "missing authorization token")
  with_values ctx (value ∷ _) = verified ctx (v.verify ctx (trim_prefix value "Bearer "))

  abbrev with_metadata : Context → Option Metadata → Result Context
  with_metadata ctx none = err (status Code.unauthenticated "missing metadata")
  with_metadata ctx (some md) = with_values ctx (values_of "authorization" md)

  unfoldable pub authorize : Context → Result Context
  authorize ctx = with_metadata ctx ctx.incoming

  abbrev pub admit : {W A : Type 0} → Handler W A → Result Context → W → Outcome A × W
  admit handler (err e) w = (returned (err e), w)
  admit handler (ok ctx) w = handler ctx w

  -- `Unary`, and `Stream`, whose `wrappedStream` only replaces the context.
  unfoldable pub unary : {W A : Type 0} → Handler W A → Handler W A
  unary handler ctx w = admit handler (authorize ctx) w

abbrev user_of : Option String → Outcome String
user_of none = panicked (error_value (status Code.unauthenticated "user_id not found in context"))
user_of (some id) =
    if str_eq id ""
    then panicked (error_value (status Code.unauthenticated "user_id not found in context"))
    else returned (ok id)

unfoldable pub must_user_id_from_ctx : Context → Outcome String
must_user_id_from_ctx ctx = user_of ctx.user_id

abbrev user_or_error : Option String → Result String
user_or_error none = err (Error.plain "user id key not present")
user_or_error (some id) =
    if str_eq id "" then err (Error.plain "user id key not present") else ok id

unfoldable pub user_id_from_ctx : Context → Result String
user_id_from_ctx ctx = user_or_error ctx.user_id

-- The first line of every handler.
abbrev continue_as :
    {W A : Type 0} → Outcome String → (String → W → Outcome A × W) → W → Outcome A × W
continue_as (returned (ok id)) f w = f id w
continue_as (returned (err e)) f w = (returned (err e), w)
continue_as (panicked p) f w = (panicked p, w)

unfoldable pub with_user : {W A : Type 0} → (String → W → Outcome A × W) → Handler W A
with_user f ctx w = continue_as (must_user_id_from_ctx ctx) f w

-- The recovery handler: a panic with a status error is that error.
unfoldable pub recovered : Panic → Error
recovered (error_value (status c m)) = status c m
recovered (error_value e) = status Code.internal "internal error"
recovered (runtime_error m) = status Code.internal "internal error"

abbrev pub recover : {A : Type 0} → Outcome A → Result A
recover (returned r) = r
recover (panicked p) = err (recovered p)

pub recover_by-recovered : {A : Type 0} (o : Outcome A) → recover_by recovered o ≡ recover o
recover_by-recovered (returned r) = refl
recover_by-recovered (panicked p) = refl

-- A request to a handler behind the interceptors.
unfoldable pub serve : {W A : Type 0} → Verifier → Handler W A → Context → W → Result A × W
serve v handler ctx w = let (o, w') = unary v handler ctx w in (recover o, w')
