-- ===== src/Projects/Client.antt =====
-- sources/internal/infrastructure/clients/projects.go: the client that the sources service asks for
-- access, with the projects service behind it.
pub mod Owner
use sihkaromicro.Prelude.{ℤ, ◌≡◌, Bool, String, Option, none, some, List, [], ◌++◌}
use sihkaromicro.Runtime.Errors.{Error, wrap, Result, ok, err}
use sihkaromicro.Runtime.Context.{Context, Metadata, values_of}
use sihkaromicro.Runtime.Calls.{Call}
use sihkaromicro.Sources.Interceptor.{Verifier}
use sihkaromicro.Sources.Ports.{ProjectsClient, Ports}
use sihkaromicro.Projects.Model.{CheckAccessRequest, CheckAccessResponse}
use sihkaromicro.Projects.Database.{Database}
use sihkaromicro.Projects.Interceptor.{serve}
use sihkaromicro.Projects.Handler.{check_access}
use sihkaromicro.Projects.Handler.Access.{check_access_method}

-- `metadata.NewOutgoingContext(ctx, md)`, where there is incoming metadata.
abbrev forward : Option Metadata → Context → Context
forward none ctx = ctx
forward (some md) ctx = record ctx { outgoing = some md }

abbrev access_of : Result CheckAccessResponse → Result Bool
access_of (ok response) = ok response.has_access
access_of (err e) = err (wrap "check access: " e "")

-- A stub of the generated client: a call with a context and a request.
abbrev pub Stub : Type 0 → Type 0
Stub S = Context → CheckAccessRequest → Call S CheckAccessResponse

unfoldable pub check_access_over : {S : Type 0} → Stub S → Context → ℤ → Call S Bool
check_access_over stub ctx project_id s =
    let (r, s') = stub (forward ctx.incoming ctx) (record { project_id = project_id }) s in
    (access_of r, s')

-- gRPC between the two services, which is not part of the repository. A call fails on the way, or
-- reaches the server with the metadata of the client and headers of gRPC's own.
pub record Transport : Type 1 where
  pub State : Type 0
  pub failure : Context → State → Option Error × State
  pub headers : Metadata

abbrev metadata_or_none : Option Metadata → Metadata
metadata_or_none none = []
metadata_or_none (some md) = md

-- The context in which the server handles a call.
abbrev pub arriving : Transport → Context → Context
arriving net ctx = record {
  incoming = some (metadata_or_none ctx.outgoing ++ net.headers);
  outgoing = none;
  user_id = none;
}

module _ (net : Transport) (v : Verifier) (D : Database) where
  abbrev delivered :
      Option Error × net.State
      → Context
      → CheckAccessRequest
      → D.State
      → Result CheckAccessResponse × (net.State × D.State)
  delivered (some e, n) ctx req s = (err e, (n, s))
  delivered (none, n) ctx req s =
      let (r, s') = serve v check_access_method (check_access D req) (arriving net ctx) s in
      (r, (n, s'))

  unfoldable pub stub : Stub (net.State × D.State)
  stub ctx req (n, s) = delivered (net.failure ctx n) ctx req s

  -- The client of the sources service, connected to the projects service.
  abbrev pub projects_client : ProjectsClient
  projects_client = record { State = net.State × D.State; check_access = check_access_over stub }

  -- The ports of the sources service with this client.
  abbrev pub connected : Ports → Ports
  connected E = record E { projects = projects_client }
