-- ===== src/Sources/Repository.antt =====
-- sources/internal/repository/source.go: `sourceRepository` over gorm.
pub mod Laws
use sihkaromicro.Prelude.{ℕ, ℤ, Bool, String, List, [], ◌∷◌, ◌==◌, if◌then◌else◌}
use sihkaromicro.Runtime.Errors.{Error, Result, ok, err, sentinel, gorm_record_not_found}
use sihkaromicro.Runtime.Context.{Context}
use sihkaromicro.Runtime.Calls.{Call}
use sihkaromicro.Sources.Model.{Source, SourceStatus}
use sihkaromicro.Sources.Apperr.{from_gorm_error}
use sihkaromicro.Sources.Spec.{has_id, owned, chosen}
use sihkaromicro.Sources.Database.{Database, set_status, set_job_id, set_minio_path}
use sihkaromicro.Sources.Ports.{SourceRepository}

-- `if err != nil { return apperr.FromGORM(err, entity) }`, and `return apperr.FromGORM(err, entity)`
abbrev pub convert {ℓ} : {A : Type ℓ} → Result A → String → Result A
convert (ok a) entity = ok a
convert (err e) entity = err (from_gorm_error e entity)

-- `RowsAffected == 0` is an error of the repository's own.
abbrev pub affected : Result ℕ → String → Result (Unit {0})
affected (ok n) entity =
    if n == 0 then err (from_gorm_error (sentinel gorm_record_not_found) entity) else ok tt
affected (err e) entity = err (from_gorm_error e entity)

module _ (D : Database) where
  unfoldable pub save : Context → Source → Call D.State Source
  save ctx source = D.create ctx source

  unfoldable pub find_by_project_id_and_owner_id : Context → ℤ → ℤ → String → Call D.State Source
  find_by_project_id_and_owner_id ctx id project_id owner_id s =
      let (r, s') = D.first ctx (chosen id project_id owner_id) s in
      (convert r "source FindByProjectIDAndOwnerID", s')

  unfoldable pub update_status_by_source_id :
      Context → ℤ → SourceStatus → String → Call D.State Unit
  update_status_by_source_id ctx id status job_id s =
      let (r, s') = D.updates ctx (has_id id) (set_status status ∷ set_job_id job_id ∷ []) s in
      (convert r "source UpdateStatusBySourceID", s')

  unfoldable pub delete_by_project_id_and_owner_id : Context → ℤ → ℤ → String → Call D.State Unit
  delete_by_project_id_and_owner_id ctx id project_id owner_id s =
      let (r, s') = D.delete_where ctx (chosen id project_id owner_id) s in
      (affected r "source DeleteByProjectIDAndOwnerID", s')

  unfoldable pub find_all_by_project_id_and_owner_id :
      Context → ℤ → String → Call D.State (List Source)
  find_all_by_project_id_and_owner_id ctx project_id owner_id s =
      let (r, s') = D.find_where ctx (owned project_id owner_id) s in
      (convert r "source FindAllByProjectIDAndOwnerID", s')

  unfoldable pub count_by_project_id_and_owner_id : Context → ℤ → String → Call D.State ℕ
  count_by_project_id_and_owner_id ctx project_id owner_id s =
      let (r, s') = D.count_where ctx (owned project_id owner_id) s in
      (convert r "source CountByProjectIDAndOwnerID", s')

  unfoldable pub update_minio_path : Context → ℤ → String → Call D.State Unit
  update_minio_path ctx id path s =
      let (r, s') = D.updates ctx (has_id id) (set_minio_path path ∷ []) s in
      (convert r "source UpdateMinioPath", s')

  -- `NewSourceRepository`
  abbrev pub source_repository : SourceRepository
  source_repository = record {
    State = D.State;
    save = save;
    find = find_by_project_id_and_owner_id;
    find_all = find_all_by_project_id_and_owner_id;
    count = count_by_project_id_and_owner_id;
    update_status = update_status_by_source_id;
    update_minio_path = update_minio_path;
    delete = delete_by_project_id_and_owner_id;
  }
