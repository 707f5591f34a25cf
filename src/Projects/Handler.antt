-- ===== src/Projects/Handler.antt =====
-- projects/internal/handler/project.go, over the database. What the handlers log is not modelled.
pub mod Access
pub mod Owned
use sihkaromicro.Prelude.{
  ℕ, ℤ, pos, negsuc, ◌-◌, ◌%◌, ◌^◌, Bool, true, false, String, ◌<>◌, List, map, ltb, if◌then◌else◌,
}
use sihkaromicro.Runtime.Errors.{
  Error, status, Code, message, error_is, gorm_record_not_found, Result, ok, err, Outcome, returned,
}
use sihkaromicro.Runtime.Context.{Context}
use sihkaromicro.Runtime.Calls.{Call}
use sihkaromicro.Sources.Interceptor.{Handler, with_user}
use sihkaromicro.Projects.Model.{
  Project, PageWrapper, to_proto, CreateProjectRequest, ProjectResponse, GetProjectRequest,
  ListProjectsRequest, ListProjectsResponse, DeleteProjectRequest, DeleteProjectResponse,
  CheckAccessRequest, CheckAccessResponse,
}
use sihkaromicro.Projects.Database.{Database}
use sihkaromicro.Projects.Service

-- `status.Error(codes.InvalidArgument, "Bad request: "+err.Error())`
abbrev bad_request : Error → Error
bad_request e = status Code.invalid_argument ("Bad request: " <> message e)

abbrev pub respond : {A B : Type 0} → (A → B) → Result A → Outcome B
respond f (ok a) = returned (ok (f a))
respond f (err e) = returned (err (bad_request e))

abbrev pub answer : {W A B : Type 0} → (A → B) → Call W A → W → Outcome B × W
answer f m w = (respond f (m w).0, (m w).1)

-- A project that is not found is an answer of the access check, not an error.
unfoldable pub access_response : Result Bool → Result CheckAccessResponse
access_response (ok granted) = ok (record { has_access = granted })
access_response (err e) =
    if error_is e gorm_record_not_found
    then ok (record { has_access = false })
    else err (status Code.invalid_argument ("bad request: " <> message e))

-- `int32(n)` of an int64 that is not negative.
abbrev pub to_int32 : ℕ → ℤ
to_int32 n = let m = n % 2 ^ 32 in if ltb m (2 ^ 31) then pos m else negsuc (2 ^ 32 - 1 - m)

abbrev project_response : Project → ProjectResponse
project_response p = record { project = to_proto p }

abbrev list_response : PageWrapper → ListProjectsResponse
list_response page = record { projects = map to_proto page.data_rows; total = to_int32 page.total }

module _ (D : Database) where
  unfoldable pub check_access : CheckAccessRequest → Handler D.State CheckAccessResponse
  check_access req ctx =
      with_user
        (λ user_id s.
          let (r, s') = Service.can_manage D ctx user_id req.project_id s in
          (returned (access_response r), s'))
        ctx

  unfoldable pub create_project : CreateProjectRequest → Handler D.State ProjectResponse
  create_project req ctx =
      with_user (λ user_id. answer project_response (Service.create D ctx user_id req.title)) ctx

  unfoldable pub delete_project : DeleteProjectRequest → Handler D.State DeleteProjectResponse
  delete_project req ctx =
      with_user
        (λ user_id.
          answer (λ _. record { success = true }) (Service.delete D ctx user_id req.project_id))
        ctx

  unfoldable pub get_project : GetProjectRequest → Handler D.State ProjectResponse
  get_project req ctx =
      with_user (λ user_id. answer project_response (Service.get D ctx user_id req.project_id)) ctx

  unfoldable pub list_projects : ListProjectsRequest → Handler D.State ListProjectsResponse
  list_projects req ctx =
      with_user
        (λ user_id. answer list_response (Service.list D ctx user_id req.page req.page_size)) ctx
