-- ===== src/Sources/Service/Upload.antt =====
-- `UploadSource` of sources/internal/service/source.go. Its two deferred functions are the clean-ups
-- of two nested bodies, so that the object goes before the row, as deferred functions run.
mod Results
pub mod Rows
pub mod Atomic
pub mod Success
pub mod Complete
use sihkaromicro.Prelude.{pos, String, str_eq, if◌then◌else◌}
use sihkaromicro.Runtime.Errors.{Result, ok, err}
use sihkaromicro.Runtime.Context.{Context, background}
use sihkaromicro.Runtime.Calls.{
  ◌>>=◌, ◌>>◌, Call, or_raise, Attempt, attempting, deferring, succeeded,
}
use sihkaromicro.Sources.Model.{Source, type_url, status_uploading, status_uploaded, status_pending}
use sihkaromicro.Sources.Apperr.{unavailable}
use sihkaromicro.Sources.Ports.{Ports, World, on_rows, on_objects}
use sihkaromicro.Sources.Service.{
  UploadSourceRequest, UploadSourceResult, check_project_access, check_limits, publish_create_job,
  new_job_id,
}

-- The row that the upload saves first; the database gives it an id and times.
unfoldable pub new_source : UploadSourceRequest → Source
new_source req = record {
  id = pos 0;
  project_id = req.project_id;
  owner_id = req.owner_id;
  name = req.name;
  kind = req.kind;
  status = status_uploading;
  size = req.size;
  minio_path = "";
  job_id = "";
  error = "";
  source_url = req.source_url;
  created_at = 0;
  updated_at = 0;
}

module _ (E : Ports) where
  abbrev pub Body : Type 0
  Body = World E → Attempt UploadSourceResult × World E

  -- Publishing may fail: the upload has succeeded, and the client can retry the job.
  abbrev pub published : Context → Source → String → Result (Unit {0}) → Body
  published ctx source job_id (err _) w =
      (succeeded (record { source_id = source.id; job_id = "" }), w)
  published ctx source job_id (ok _) w = (
    succeeded (record { source_id = source.id; job_id = job_id }),
    (on_rows E (E.repo.update_status ctx source.id status_pending job_id) w).1,
  )

  unfoldable pub submit : Context → UploadSourceRequest → Source → Body
  submit ctx req source =
      attempting (on_rows E (E.repo.update_status ctx source.id status_uploaded ""))
        (unavailable "source repository")
        λ _ w.
          let (_, w₁) = new_job_id E w in
          let job_id = (E.uuid.new w.ids).0 in
          let (sent, w₂) =
            publish_create_job E ctx job_id req.owner_id source.id source.minio_path req.kind
              req.source_url w₁ in
          published ctx source job_id sent w₂

  abbrev pub remove_object : String → World E → World E
  remove_object name w = (on_objects E (E.storage.delete background name) w).1

  abbrev pub remove_row : Source → World E → World E
  remove_row source w =
      (on_rows E (E.repo.delete background source.id source.project_id source.owner_id) w).1

  unfoldable pub store : Context → UploadSourceRequest → Source → Body
  store ctx req source =
      let name = E.storage.object_name req.owner_id source.id req.name in
      attempting (on_objects E (E.storage.upload ctx name req.reader req.size req.content_type))
        (unavailable "storage")
        λ _.
          deferring
            (attempting (on_rows E (E.repo.update_minio_path ctx source.id name))
              (unavailable "source repository")
              λ _. submit ctx req (record source { minio_path = name }))
            (remove_object name)

  -- A url has no file: its job is published at once.
  abbrev pub process_body : Context → UploadSourceRequest → Source → Body
  process_body ctx req source =
      if str_eq req.kind type_url then submit ctx req source else store ctx req source

  unfoldable pub process : Context → UploadSourceRequest → Source → Body
  process ctx req source = deferring (process_body ctx req source) (remove_row source)

  -- From the first write on.
  unfoldable pub upload_saved : Context → UploadSourceRequest → Call (World E) UploadSourceResult
  upload_saved ctx req = do
    source ←
        or_raise (on_rows E (E.repo.save ctx (new_source req))) (unavailable "source repository")
    λ w. let (a, w') = process ctx req source w in (a.result, w')

  unfoldable pub upload_source : Context → UploadSourceRequest → Call (World E) UploadSourceResult
  upload_source ctx req = do
    check_project_access E ctx req.project_id req.owner_id
    check_limits E ctx req.project_id req.owner_id
    upload_saved ctx req
