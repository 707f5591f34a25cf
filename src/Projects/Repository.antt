-- ===== src/Projects/Repository.antt =====
-- projects/internal/repository/project_repository.go: `projectRepository` over gorm.
use sihkaromicro.Prelude.{ℤ, pos, ◌-ℤ◌, ◌*ℤ◌, String, ◌==◌, if◌then◌else◌}
use sihkaromicro.Runtime.Errors.{sentinel, gorm_record_not_found}
use sihkaromicro.Runtime.Context.{Context}
use sihkaromicro.Runtime.Calls.{Call, pure, raise, ◌>>=◌}
use sihkaromicro.Projects.Model.{Project, PageWrapper}
use sihkaromicro.Projects.Database.{Database, chosen, owned}

module _ (D : Database) where
  unfoldable pub save : Context → Project → Call D.State Project
  save ctx project = D.create ctx project

  unfoldable pub find_project : Context → String → ℤ → Call D.State Project
  find_project ctx owner_id project_id = D.first ctx (chosen owner_id project_id)

  unfoldable pub page : Context → String → ℤ → ℤ → Call D.State PageWrapper
  page ctx owner_id number page_size = do
    total ← D.count_where ctx (owned owner_id)
    projects ← D.page_where ctx (owned owner_id) ((number -ℤ pos 1) *ℤ page_size) page_size
    pure (record { total = total; data_rows = projects })

  unfoldable pub delete : Context → String → ℤ → Call D.State Unit
  delete ctx owner_id project_id = do
    affected ← D.delete_where ctx (chosen owner_id project_id)
    if affected == 0 then raise (sentinel gorm_record_not_found) else pure tt
