-- ===== src/Sources/Concurrent/Programs.antt =====
-- The other methods of sources/internal/service/source.go as programs: trees of the calls of ports
-- that a request makes one after the other. `run` makes them at once, as a request that runs alone.
pub mod Alone
pub mod Quiet
pub mod Mild
use sihkaromicro.Prelude.{ℤ, not, ◌&&◌, String, ◌<>◌, List, [], ◌∷◌, str_eq, if◌then◌else◌}
use sihkaromicro.Runtime.Errors.{Error, Result, ok, err, sentinel, err_permission_denied}
use sihkaromicro.Runtime.Context.{Context, background}
use sihkaromicro.Runtime.Calls.{Call, replace_err}
use sihkaromicro.Sources.Model.{Source, status_pending}
use sihkaromicro.Sources.Apperr.{unavailable, invalid_argument}
use sihkaromicro.Sources.Ports.{Ports, World, on_rows, on_peer, on_objects}
use sihkaromicro.Sources.Service.{
  SourceDetail, url_or_empty, is_active, is_retryable, publish_create_job, publish_cancel_job,
  new_job_id,
}

pub data Program (E : Ports) (A : Type 0) : Type 1 where
  stop : Result A → Program E A
  call : {X : Type 0} → Call (World E) X → (Result X → Program E A) → Program E A

unfoldable pub run : {E : Ports} {A : Type 0} → Program E A → Call (World E) A
run (stop r) w = (r, w)
run (call m k) w = run (k (m w).0) (m w).1

module _ {E : Ports} {A B : Type 0} where
  infixl 10 ◌>>=◌ ◌>>◌
  unfoldable pub ◌>>=◌ : Program E A → (A → Program E B) → Program E B
  stop (ok a) >>= f = f a
  stop (err e) >>= f = stop (err e)
  call m k >>= f = call m (λ r. k r >>= f)

  abbrev pub ◌>>◌ : Program E A → Program E B → Program E B
  p >> q = p >>= λ _. q

module _ {E : Ports} {A : Type 0} where
  abbrev pub invoke : Call (World E) A → Program E A
  invoke m = call m stop

  abbrev pub invoke_or : Call (World E) A → Error → Program E A
  invoke_or m e = call m (λ r. stop (replace_err r e))

  -- An error of the call is logged.
  abbrev pub invoke_anyway : Call (World E) A → Program E (Unit {0})
  invoke_anyway m = call m (λ _. stop (ok tt))

module _ (E : Ports) where
  unfoldable pub check_access : Context → ℤ → Program E Unit
  check_access ctx project_id = do
    has_access ←
        invoke_or (on_peer E (E.projects.check_access ctx project_id))
          (unavailable "projects service")
    if has_access then stop (ok tt) else stop (err (sentinel err_permission_denied))

  -- Signing is a call only for a source that has an object.
  unfoldable pub sign : Context → Source → Program E SourceDetail
  sign ctx source =
      if str_eq source.minio_path ""
      then stop (ok (record { source = source; signed_url = "" }))
      else call (on_objects E (E.storage.presigned_url ctx source.minio_path))
          (λ r. stop (ok (record { source = source; signed_url = url_or_empty r })))

  unfoldable pub sign_all : Context → List Source → Program E (List SourceDetail)
  sign_all ctx [] = stop (ok [])
  sign_all ctx (source ∷ sources) = do
    detail ← sign ctx source
    details ← sign_all ctx sources
    stop (ok (detail ∷ details))

  unfoldable pub get_source : Context → ℤ → ℤ → String → Program E SourceDetail
  get_source ctx id project_id owner_id = do
    check_access ctx project_id
    source ← invoke (on_rows E (E.repo.find ctx id project_id owner_id))
    sign ctx source

  unfoldable pub list_sources : Context → ℤ → String → Program E (List SourceDetail)
  list_sources ctx project_id owner_id = do
    check_access ctx project_id
    sources ← invoke (on_rows E (E.repo.find_all ctx project_id owner_id))
    sign_all ctx sources

  unfoldable pub cancel_job : Context → String → Source → Program E Unit
  cancel_job ctx owner_id source =
      if not (str_eq source.job_id "") && is_active source
      then invoke_anyway (publish_cancel_job E ctx source.job_id owner_id source.id)
      else stop (ok tt)

  unfoldable pub delete_object : Source → Program E Unit
  delete_object source =
      if not (str_eq source.minio_path "")
      then invoke_anyway (on_objects E (E.storage.delete background source.minio_path))
      else stop (ok tt)

  unfoldable pub delete_source : Context → ℤ → ℤ → String → Program E Unit
  delete_source ctx id project_id owner_id = do
    check_access ctx project_id
    source ← invoke (on_rows E (E.repo.find ctx id project_id owner_id))
    invoke (on_rows E (E.repo.delete ctx id project_id owner_id))
    cancel_job ctx owner_id source
    delete_object source

  unfoldable pub resubmit : Context → String → Source → Program E String
  resubmit ctx owner_id source = do
    job_id ← invoke (new_job_id E)
    invoke_or
        (publish_create_job E ctx job_id owner_id source.id source.minio_path source.kind
          source.source_url)
        (unavailable "message broker")
    invoke_anyway (on_rows E (E.repo.update_status ctx source.id status_pending job_id))
    stop (ok job_id)

  unfoldable pub retry_job : Context → ℤ → ℤ → String → Program E String
  retry_job ctx id project_id owner_id = do
    check_access ctx project_id
    source ← invoke (on_rows E (E.repo.find ctx id project_id owner_id))
    if is_retryable source
        then resubmit ctx owner_id source
        else stop (err (invalid_argument ("source is not in retryable state: " <> source.status)))
