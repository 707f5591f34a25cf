-- ===== src/Sources/Concurrent.antt =====
-- `UploadSource` of sources/internal/service/source.go, one call of a port at a time, for uploads
-- that run at the same time: between two calls of one request, calls of others change the ports.
pub mod Gets
pub mod Sequential
pub mod Keys
pub mod Limit
pub mod Orphans
pub mod Programs
pub mod Requests
pub mod Counting
pub mod Turns
use sihkaromicro.Prelude.{
  ℕ, zero, suc, Bool, true, false, String, Option, none, some, List, ◌∷◌, ◌++◌, str_eq, leb,
  if◌then◌else◌,
}
use sihkaromicro.Runtime.Errors.{Error, Result, ok, err, sentinel, err_permission_denied}
use sihkaromicro.Runtime.Context.{Context}
use sihkaromicro.Sources.Model.{Source, type_url, status_uploaded, status_pending}
use sihkaromicro.Sources.Apperr.{unavailable, limit_exceeded}
use sihkaromicro.Sources.Ports.{Ports, World, on_rows, on_peer, on_objects}
use sihkaromicro.Sources.Service.{
  UploadSourceRequest, UploadSourceResult, max_sources_per_project, publish_create_job,
}
use sihkaromicro.Sources.Service.Upload.{new_source, remove_object, remove_row}

-- The next call of a request, with the variables of the function that are set by then. The name is
-- that of the object to delete if the rest fails, where a file was uploaded.
pub data Phase : Type 0 where
  asking counting saving : Phase
  storing : Source → Phase
  linking : Source → String → Phase
  marking : Source → Option String → Phase
  naming : Source → Phase
  publishing : Source → String → Phase
  waiting : Source → String → Phase
  dropping : Source → String → Error → Phase
  deleting : Source → Error → Phase
  ended : Result UploadSourceResult → Phase

abbrev pub undo : Source → Option String → Error → Phase
undo source none e = deleting source e
undo source (some name) e = dropping source name e

abbrev pub asked : Result Bool → Phase
asked (ok true) = counting
asked (ok false) = ended (err (sentinel err_permission_denied))
asked (err _) = ended (err (unavailable "projects service"))

abbrev pub counted : Result ℕ → Phase
counted (ok count) =
    if leb max_sources_per_project count
    then ended (err (limit_exceeded "max sources per project reached"))
    else saving
counted (err _) = ended (err (unavailable "source repository"))

abbrev pub saved : UploadSourceRequest → Result Source → Phase
saved req (ok source) = if str_eq req.kind type_url then marking source none else storing source
saved req (err _) = ended (err (unavailable "source repository"))

abbrev pub stored : Source → String → Result (Unit {0}) → Phase
stored source name (ok _) = linking source name
stored source name (err _) = deleting source (unavailable "storage")

abbrev pub linked : Source → String → Result (Unit {0}) → Phase
linked source name (ok _) = marking source (some name)
linked source name (err _) = dropping source name (unavailable "source repository")

-- `source.MinioPath = objectName`: read only by the calls after `marking`.
abbrev pub placed : Source → Option String → Source
placed source none = source
placed source (some name) = record source { minio_path = name }

abbrev pub marked : Source → Option String → Result (Unit {0}) → Phase
marked source name (ok _) = naming (placed source name)
marked source name (err _) = undo source name (unavailable "source repository")

abbrev pub sent_job : Source → String → Result (Unit {0}) → Phase
sent_job source job_id (ok _) = waiting source job_id
sent_job source job_id (err _) = ended (ok (record { source_id = source.id; job_id = "" }))

module _ (E : Ports) (ctx : Context) (req : UploadSourceRequest) where
  -- One call.
  unfoldable pub next : Phase → World E → Phase × World E
  next asking w =
      let (r, w') = on_peer E (E.projects.check_access ctx req.project_id) w in (asked r, w')
  next counting w =
      let (r, w') = on_rows E (E.repo.count ctx req.project_id req.owner_id) w in (counted r, w')
  next saving w = let (r, w') = on_rows E (E.repo.save ctx (new_source req)) w in (saved req r, w')
  next (storing source) w =
      let name = E.storage.object_name req.owner_id source.id req.name in
      let (r, w') =
        on_objects E (E.storage.upload ctx name req.reader req.size req.content_type) w in
      (stored source name r, w')
  next (linking source name) w =
      let (r, w') = on_rows E (E.repo.update_minio_path ctx source.id name) w in
      (linked source name r, w')
  next (marking source name) w =
      let (r, w') = on_rows E (E.repo.update_status ctx source.id status_uploaded "") w in
      (marked source name r, w')
  next (naming source) w =
      (publishing source (E.uuid.new w.ids).0, record w { ids = (E.uuid.new w.ids).1 })
  next (publishing source job_id) w =
      let (r, w') =
        publish_create_job E ctx job_id req.owner_id source.id source.minio_path req.kind
          req.source_url w in
      (sent_job source job_id r, w')
  next (waiting source job_id) w =
      let (r, w') = on_rows E (E.repo.update_status ctx source.id status_pending job_id) w in
      (ended (ok (record { source_id = source.id; job_id = job_id })), w')
  next (dropping source name e) w = (deleting source e, remove_object E name w)
  next (deleting source e) w = (ended (err e), remove_row E source w)
  next (ended r) w = (ended r, w)

  -- A request that runs alone.
  unfoldable pub steps : ℕ → Phase → World E → Phase × World E
  steps zero p w = (p, w)
  steps (suc n) p w = let (p', w') = next p w in steps n p' w'
