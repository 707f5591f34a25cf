-- ===== src/Sources/Service/Refusal.antt =====
-- The operations where the projects service gives no access.
use sihkaromicro.Prelude.{ℤ, ◌≡◌, ◌≢◌, true, Bool, String, arith}
use sihkaromicro.Runtime.Errors.{Error, Result, ok, err, sentinel, err_permission_denied}
use sihkaromicro.Runtime.Context.{Context}
use sihkaromicro.Sources.Apperr.{unavailable}
use sihkaromicro.Sources.Ports.{Ports, World}
use sihkaromicro.Sources.Service.{
  UploadSourceRequest, check_project_access, get_source, list_sources, delete_source, retry_job,
}
use sihkaromicro.Sources.Service.Upload.{upload_source}

-- The error for an answer of the projects service that is not `true`.
abbrev pub access_error : Result Bool → Error
access_error (ok _) = sentinel err_permission_denied
access_error (err _) = unavailable "projects service"

-- `result` is the error `e`, and only the projects service was called.
pub record IsRefused {A : Type 0} (E : Ports) (e : Error) (w : World E) (result : Result A)
    (w' : World E) : Type 0 where
  pub refused : result ≡ err e
  pub rows : w'.rows ≡ w.rows
  pub topics : w'.topics ≡ w.topics
  pub objects : w'.objects ≡ w.objects
  pub ids : w'.ids ≡ w.ids

module _ (E : Ports) (ctx : Context) (project_id : ℤ) (w : World E)
    (no : (E.projects.check_access ctx project_id w.peer).0 ≢ ok true) where
  abbrev Refuses : {A : Type 0} → Result A × World E → Type 0
  Refuses r = IsRefused E (access_error (E.projects.check_access ctx project_id w.peer).0) w r.0 r.1

  check-Refuses : (owner_id : String) → Refuses (check_project_access E ctx project_id owner_id w)
  unfolding check_project_access
  check-Refuses owner_id = ground arith

  -- Where the projects service fails or does not answer `true`, each of the five operations of the
  -- project returns the error of that answer and changes no row, message, object or id.
  pub no_access-IsRefused :
      (id : ℤ) (owner_id : String) (req : UploadSourceRequest)
      → req.project_id ≡ project_id
      → Refuses (get_source E ctx id project_id owner_id w)
        × Refuses (list_sources E ctx project_id owner_id w)
        × Refuses (delete_source E ctx id project_id owner_id w)
        × Refuses (retry_job E ctx id project_id owner_id w)
        × Refuses (upload_source E ctx req w)
  unfolding get_source list_sources delete_source retry_job upload_source
  no_access-IsRefused id owner_id req same = (
    ground (arith, check-Refuses owner_id),
    ground (arith, check-Refuses owner_id),
    ground (arith, check-Refuses owner_id),
    ground (arith, check-Refuses owner_id),
    ground (arith, check-Refuses req.owner_id),
  )
