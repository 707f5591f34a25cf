-- ===== src/Projects/Server.antt =====
-- `New` of projects/internal/app/grpc/app.go: the methods that are registered, and the interceptors
-- around them. The names of the methods are those of proto/projects/projects_grpc.pb.go; the server
-- of the health service is a parameter, and its `Watch`, a stream, has no interceptor.
use sihkaromicro.Prelude.{◌≡◌, refl, ◌∙◌, Bool-cases, inl, inr, String, List, [], ◌∷◌}
use sihkaromicro.Runtime.Errors.{Result, returned, Result-cases}
use sihkaromicro.Runtime.Context.{Context}
use sihkaromicro.Runtime.Grpc.{
  Handler, Interceptor, chain, payload_received, payload_sent, Middleware, MiddlewareLaws, beside,
  seen, chain-recovered,
}
use sihkaromicro.Sources.Interceptor.{Verifier, recovered, recover_by-recovered}
use sihkaromicro.Projects.Model.{
  CreateProjectRequest, ProjectResponse, GetProjectRequest, ListProjectsRequest,
  ListProjectsResponse, DeleteProjectRequest, DeleteProjectResponse, CheckAccessRequest,
  CheckAccessResponse,
}
use sihkaromicro.Projects.Database.{Database}
use sihkaromicro.Projects.Interceptor.{authorize, is_public, unary, serve}
use sihkaromicro.Projects.Handler as Handlers

pub data Method : Type 0 where
  create_project get_project list_projects delete_project check_access health_check : Method

unfoldable pub full_name : Method → String
full_name create_project = "/projects.ProjectsService/CreateProject"
full_name get_project = "/projects.ProjectsService/GetProject"
full_name list_projects = "/projects.ProjectsService/ListProjects"
full_name delete_project = "/projects.ProjectsService/DeleteProject"
full_name check_access = "/projects.ProjectsService/CheckAccess"
full_name health_check = "/grpc.health.v1.Health/Check"

abbrev pub Input : Method → Type 0
Input create_project = CreateProjectRequest
Input get_project = GetProjectRequest
Input list_projects = ListProjectsRequest
Input delete_project = DeleteProjectRequest
Input check_access = CheckAccessRequest
Input health_check = Unit

abbrev pub Output : Type 0 → Method → Type 0
Output Status create_project = ProjectResponse
Output Status get_project = ProjectResponse
Output Status list_projects = ListProjectsResponse
Output Status delete_project = DeleteProjectResponse
Output Status check_access = CheckAccessResponse
Output Status health_check = Status

-- `interceptor.AuthInterceptor`, which lets public methods pass.
abbrev pub auth : {W : Type 0} → Verifier → Interceptor W
auth v = record { around = λ method handler. unary v method handler }

unfoldable pub interceptors :
    {W : Type 0} (M : Middleware) → Verifier → List (Interceptor (W × M.Lines))
interceptors M v =
    M.recovery recovered ∷ M.logging (payload_received ∷ payload_sent ∷ []) ∷ auth v ∷ []

module _ (M : Middleware) (v : Verifier) (D : Database) {Status : Type 0}
    (health : Result Status) where
  -- What is registered under a method.
  unfoldable pub registered : (m : Method) → Input m → Handler D.State (Output Status m)
  registered create_project req = Handlers.create_project D req
  registered get_project req = Handlers.get_project D req
  registered list_projects req = Handlers.list_projects D req
  registered delete_project req = Handlers.delete_project D req
  registered check_access req = Handlers.check_access D req
  registered health_check req = λ ctx s. (returned health, s)

  unfoldable pub answer : (m : Method) → Input m → Handler (D.State × M.Lines) (Output Status m)
  answer m input = chain (interceptors M v) (full_name m) (beside (registered m input))

unary-beside :
    {W L A : Type 0} (v : Verifier) (method : String) (handler : Handler W A) (ctx : Context)
    (w : W) (lines : L)
    → seen (unary v method (beside handler) ctx (w, lines)) ≡ unary v method handler ctx w
unfolding unary
unary-beside v method handler ctx w lines = elim (Bool-cases (is_public method)) [
  | inl open_to_all ↦ rw open_to_all refl
  | inr closed ↦ elim (Result-cases (authorize v ctx)) [
    | inl (ctx', admitted) ↦ rw (closed, admitted) refl
    | inr (e, refused) ↦ rw (closed, refused) refl
  ]
]

-- Over middleware that recovers panics and passes answers on, the server answers as `serve` does for
-- the handler of the method.
pub answer-serve_projects :
    (M : Middleware) (v : Verifier) (D : Database) {Status : Type 0} (health : Result Status)
    → MiddlewareLaws M
    → (m : Method) (input : Input m) (ctx : Context) (s : D.State) (lines : M.Lines)
    → let (r, s') = serve v (full_name m) (registered M v D health m input) ctx s in
      seen (answer M v D health m input ctx (s, lines)) ≡ (returned r, s')
unfolding answer interceptors serve chain
answer-serve_projects M v D health L m input ctx s lines =
    let handler = registered M v D health m input in
    chain-recovered M L recovered (payload_received ∷ payload_sent ∷ []) (auth v ∷ []) (full_name m)
      (beside handler) (unary v (full_name m) handler) ctx s lines
      (λ before. unary-beside v (full_name m) handler ctx s before)
    ∙ rw (recover_by-recovered (unary v (full_name m) handler ctx s).0) refl
