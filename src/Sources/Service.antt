-- ===== src/Sources/Service.antt =====
-- sources/internal/service/source.go: the methods of `sourceService`, over any ports. What the
-- methods log is not modelled. `UploadSource` is in Service/Upload.
pub mod Access
pub mod Refusal
pub mod Reading
pub mod Retry
pub mod Deletion
pub mod Upload
use sihkaromicro.Prelude.{
  ℕ, ℤ, String, ◌<>◌, Bool, not, ◌&&◌, ◌||◌, List, [], ◌∷◌, str_eq, leb, if◌then◌else◌,
}
use sihkaromicro.Runtime.Errors.{Result, ok, err, sentinel, err_permission_denied}
use sihkaromicro.Runtime.Context.{Context, background}
use sihkaromicro.Runtime.Calls.{Call, pure, raise, or_raise, best_effort, ◌>>=◌, ◌>>◌}
use sihkaromicro.Sources.Model.{
  Source, SourceType, status_uploaded, status_pending, status_processing, status_failed,
}
use sihkaromicro.Sources.Apperr.{unavailable, limit_exceeded, invalid_argument}
use sihkaromicro.Sources.Events.{create_job_payload, cancel_job_payload}
use sihkaromicro.Sources.Ports.{Ports, World, on_rows, on_peer, on_topics, on_objects}

abbrev pub max_sources_per_project : ℕ
max_sources_per_project = 20

abbrev pub max_file_size : ℕ
max_file_size = 1073741824

pub record UploadSourceRequest : Type 0 where
  pub project_id : ℤ
  pub owner_id : String
  pub name : String
  pub kind : SourceType
  pub size : ℤ
  pub content_type : String
  pub reader : List ℕ  -- nil for a url
  pub source_url : String

pub record UploadSourceResult : Type 0 where
  pub source_id : ℤ
  pub job_id : String

pub record SourceDetail : Type 0 where
  pub source : Source
  pub signed_url : String

-- The url, or "" where signing failed (the error is logged).
abbrev pub url_or_empty : Result String → String
url_or_empty (ok url) = url
url_or_empty (err _) = ""

-- A job that can still be cancelled.
abbrev pub is_active : Source → Bool
is_active source = str_eq source.status status_pending || str_eq source.status status_processing

-- `source.Status != uploaded && source.Status != failed` is the refusal.
abbrev pub is_retryable : Source → Bool
is_retryable source = str_eq source.status status_uploaded || str_eq source.status status_failed

module _ (E : Ports) where
  unfoldable pub check_project_access : Context → ℤ → String → Call (World E) Unit
  check_project_access ctx project_id owner_id = do
    has_access ←
        or_raise (on_peer E (E.projects.check_access ctx project_id))
          (unavailable "projects service")
    if has_access then pure tt else raise (sentinel err_permission_denied)

  unfoldable pub check_limits : Context → ℤ → String → Call (World E) Unit
  check_limits ctx project_id user_id = do
    count ←
        or_raise (on_rows E (E.repo.count ctx project_id user_id)) (unavailable "source repository")
    if leb max_sources_per_project count
        then raise (limit_exceeded "max sources per project reached")
        else pure tt

  unfoldable pub publish_create_job :
      Context → String → String → ℤ → String → String → String → Call (World E) Unit
  publish_create_job ctx job_id owner_id source_id minio_path file_type source_url = on_topics E (
      E.producer.publish ctx "jobs.chunking" job_id (
        create_job_payload (record {
          job_id = job_id;
          kind = "chunking";
          owner_id = owner_id;
          source_id = source_id;
          minio_path = minio_path;
          file_type = file_type;
          source_url = source_url;
        })))

  unfoldable pub publish_cancel_job : Context → String → String → ℤ → Call (World E) Unit
  publish_cancel_job ctx job_id owner_id source_id = on_topics E (
      E.producer.publish ctx "jobs.cancel" job_id (
        cancel_job_payload
          (record { job_id = job_id; owner_id = owner_id; source_id = source_id })))

  -- `detail.SignedURL` is set only where the source has an object and signing succeeds.
  unfoldable pub sign : Context → Source → World E → SourceDetail × World E
  sign ctx source w =
      if str_eq source.minio_path ""
      then (record { source = source; signed_url = "" }, w)
      else (let (r, w') = on_objects E (E.storage.presigned_url ctx source.minio_path) w in
          (record { source = source; signed_url = url_or_empty r }, w'))

  unfoldable pub sign_all : Context → List Source → World E → List SourceDetail × World E
  sign_all ctx [] w = ([], w)
  sign_all ctx (source ∷ sources) w =
      let (detail, w') = sign ctx source w in
      let (details, w'') = sign_all ctx sources w' in (detail ∷ details, w'')

  unfoldable pub get_source : Context → ℤ → ℤ → String → Call (World E) SourceDetail
  get_source ctx id project_id owner_id = do
    check_project_access ctx project_id owner_id
    source ← on_rows E (E.repo.find ctx id project_id owner_id)
    λ w. let (detail, w') = sign ctx source w in (ok detail, w')

  unfoldable pub list_sources : Context → ℤ → String → Call (World E) (List SourceDetail)
  list_sources ctx project_id owner_id = do
    check_project_access ctx project_id owner_id
    sources ← on_rows E (E.repo.find_all ctx project_id owner_id)
    λ w. let (details, w') = sign_all ctx sources w in (ok details, w')

  -- The part after the row is deleted: cancel the job, delete the file, and log what fails.
  unfoldable pub delete_rest : Context → String → Source → Call (World E) Unit
  delete_rest ctx owner_id source = do
    (if not (str_eq source.job_id "") && is_active source
        then best_effort (publish_cancel_job ctx source.job_id owner_id source.id)
        else pure tt)
    (if not (str_eq source.minio_path "")
        then best_effort (on_objects E (E.storage.delete background source.minio_path))
        else pure tt)

  unfoldable pub delete_source : Context → ℤ → ℤ → String → Call (World E) Unit
  delete_source ctx id project_id owner_id = do
    check_project_access ctx project_id owner_id
    source ← on_rows E (E.repo.find ctx id project_id owner_id)
    on_rows E (E.repo.delete ctx id project_id owner_id)
    delete_rest ctx owner_id source

  -- `uuid.New().String()`
  abbrev pub new_job_id : Call (World E) String
  new_job_id w = (ok (E.uuid.new w.ids).0, record w { ids = (E.uuid.new w.ids).1 })

  unfoldable pub resubmit : Context → String → Source → Call (World E) String
  resubmit ctx owner_id source = do
    job_id ← new_job_id
    or_raise
        (publish_create_job ctx job_id owner_id source.id source.minio_path source.kind
          source.source_url)
        (unavailable "message broker")
    best_effort (on_rows E (E.repo.update_status ctx source.id status_pending job_id))
    pure job_id

  unfoldable pub retry_job : Context → ℤ → ℤ → String → Call (World E) String
  retry_job ctx id project_id owner_id = do
    check_project_access ctx project_id owner_id
    source ← on_rows E (E.repo.find ctx id project_id owner_id)
    if is_retryable source
        then resubmit ctx owner_id source
        else raise (invalid_argument ("source is not in retryable state: " <> source.status))
