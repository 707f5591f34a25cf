-- ===== src/Projects/Service.antt =====
-- projects/internal/service/project_service.go: `projectService` over its repository.
use sihkaromicro.Prelude.{ℤ, pos, Bool, true, String, str_eq, if◌then◌else◌}
use sihkaromicro.Runtime.Errors.{plain}
use sihkaromicro.Runtime.Context.{Context}
use sihkaromicro.Runtime.Calls.{Call, pure, raise, ◌>>◌}
use sihkaromicro.Projects.Model.{Project, PageWrapper}
use sihkaromicro.Projects.Database.{Database}
use sihkaromicro.Projects.Repository
use sihkaromicro.Projects.Repository.{save, find_project, page}

-- `ID`, `CreatedAt` and `UpdatedAt` are zero: the database sets them.
abbrev pub new_project : String → String → Project
new_project owner_id title = record {
  id = pos 0;
  created_at = 0;
  updated_at = 0;
  owner_id = owner_id;
  title = title;
}

module _ (D : Database) where
  -- `Find` gives an error or a project, so the project is not nil where there is no error.
  unfoldable pub can_manage : Context → String → ℤ → Call D.State Bool
  can_manage ctx owner_id project_id = do find_project D ctx owner_id project_id; pure true

  unfoldable pub create : Context → String → String → Call D.State Project
  create ctx owner_id title =
      if str_eq title ""
      then raise (plain "Title must be not empty")
      else save D ctx (new_project owner_id title)

  unfoldable pub delete : Context → String → ℤ → Call D.State Unit
  delete ctx owner_id project_id = Repository.delete D ctx owner_id project_id

  unfoldable pub get : Context → String → ℤ → Call D.State Project
  get ctx owner_id project_id = find_project D ctx owner_id project_id

  unfoldable pub list : Context → String → ℤ → ℤ → Call D.State PageWrapper
  list ctx owner_id number page_size = page D ctx owner_id number page_size
