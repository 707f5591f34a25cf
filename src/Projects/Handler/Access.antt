-- ===== src/Projects/Handler/Access.antt =====
-- What `CheckAccess` answers, behind the interceptors.
use sihkaromicro.Prelude.{
  ℤ, ◌≡◌, ◌↔◌, inl, inr, true, false, String, List, some, arith, find, eq_iff,
}
use sihkaromicro.Runtime.Errors.{Result, ok, error_is, gorm_record_not_found, Result-cases}
use sihkaromicro.Runtime.Context.{Context}
use sihkaromicro.Sources.Interceptor.{Verifier, with_user, must_user_id_from_ctx}
use sihkaromicro.Sources.Handler.Boundary.{IsUser, as_user, authorize-IsUser}
use sihkaromicro.Projects.Model.{Project, CheckAccessResponse}
use sihkaromicro.Projects.Database.{Database, DatabaseLaws, chosen}
use sihkaromicro.Projects.Repository.{find_project}
use sihkaromicro.Projects.Service.{can_manage}
use sihkaromicro.Projects.Interceptor.{is_public, unary, serve}
use sihkaromicro.Projects.Handler.{check_access, access_response}

abbrev pub check_access_method : String
check_access_method = "/projects.ProjectsService/CheckAccess"

module _ (v : Verifier) (D : Database) (rows : D.State → List Project) (L : DatabaseLaws D rows)
    (ctx : Context) (project_id : ℤ) (s : D.State) where
  abbrev response : Result CheckAccessResponse × D.State
  response = serve v check_access_method (check_access D (record { project_id = project_id })) ctx s

  response-user :
      (user_id : String)
      → IsUser v ctx user_id
      → let (r, s') = can_manage D (as_user v ctx user_id) user_id project_id s in
        response ≡ (access_response r, s')
  unfolding serve unary is_public check_access with_user must_user_id_from_ctx
  response-user user_id u = ground (arith, authorize-IsUser v ctx user_id u, eq_iff user_id "")

  -- Over a lawful database, the projects service that gives a verified user a response says true
  -- exactly where its table has a row with this project id and this user as the owner; the rows are
  -- as they were.
  pub check_access-has_access :
      (user_id : String) (res : CheckAccessResponse)
      → IsUser v ctx user_id
      → response.0 ≡ ok res
      → ((res.has_access ≡ true)
          ↔ ((p : Project) × (find (chosen user_id project_id) (rows s) ≡ some p)))
        × (rows response.1 ≡ rows s)
  unfolding can_manage find_project access_response
  check_access-has_access user_id res u h =
      let c = as_user v ctx user_id in
      let e = response-user user_id u in
      let at_rows = L.rows-first c (chosen user_id project_id) s in
      elim (Result-cases (D.first c (chosen user_id project_id) s).0) [
        | inl (p, found) ↦ (
          (
            (λ _. (p, L.first_sound c (chosen user_id project_id) s p found)),
            λ _. ground (arith, e, found),
          ),
          ground (arith, e, at_rows),
        )
        | inr (x, missing) ↦
            let not_found : error_is x gorm_record_not_found ≡ true = ground (arith, e, missing) in
            let absent = L.first_missing c (chosen user_id project_id) s x missing not_found in
            let denied : res.has_access ≡ false = ground (arith, e, missing, not_found) in
            (
              ((λ granted. absurd (ground arith)), λ (p, there). absurd (ground arith)),
              ground (arith, e, at_rows),
            )
      ]
