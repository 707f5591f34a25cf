-- ===== src/Tests/Upload.antt =====
-- Uploads over the ports in memory.
use sihkaromicro.Prelude.{arith, pos, ◌≡◌, ◌≤◌, refl, Bool, true, List, [], ◌∷◌, length}
use sihkaromicro.Runtime.Errors.{Result, ok, err}
use sihkaromicro.Runtime.Context.{background}
use sihkaromicro.Runtime.Calls.{attempting, deferring}
use sihkaromicro.Prelude.{find, select, update}
use sihkaromicro.Sources.Model.{Source, type_pdf}
use sihkaromicro.Sources.Apperr.{unavailable}
use sihkaromicro.Sources.Events.{create_job_payload}
use sihkaromicro.Sources.Repository.{
  save, find_by_project_id_and_owner_id, update_status_by_source_id,
  delete_by_project_id_and_owner_id, find_all_by_project_id_and_owner_id,
  count_by_project_id_and_owner_id, update_minio_path,
}
use sihkaromicro.Sources.Service.{
  UploadSourceRequest, max_sources_per_project, check_project_access, check_limits,
  publish_create_job,
}
use sihkaromicro.Sources.Service.Upload.{
  new_source, submit, store, process, upload_saved, upload_source,
}
use sihkaromicro.Sources.Service.Upload.Atomic.{upload_source-atomic}
use sihkaromicro.Sources.Rows.{IsExtension}
use sihkaromicro.Sources.Service.Upload.Complete.{
  AllAnswer, job_message, placed, upload_source-answers,
}
use sihkaromicro.Sources.Spec.{owned}
use sihkaromicro.Sources.Service.Upload.Success.{upload_source-IsExtension}
use sihkaromicro.Tests.Memory.{
  ports, bucket, down, start, start_down, table_view, repo_laws, deletes_what_is_there,
}

-- Opens all that an upload calls.
unfoldable pub opened : Unit {0}
unfolding find select update save find_by_project_id_and_owner_id update_status_by_source_id
    delete_by_project_id_and_owner_id find_all_by_project_id_and_owner_id
    count_by_project_id_and_owner_id update_minio_path check_project_access check_limits
    publish_create_job new_source submit store process upload_saved upload_source attempting
    deferring create_job_payload
opened = tt

abbrev pub request : UploadSourceRequest
request = record {
  project_id = pos 5;
  owner_id = "ann";
  name = "a.pdf";
  kind = type_pdf;
  size = pos 3;
  content_type = "application/pdf";
  reader = 1 ∷ 2 ∷ 3 ∷ [];
  source_url = "";
}

upload_ok :
    (upload_source (ports bucket true) background request (start true)).0
    ≡ ok (record { source_id = pos 1; job_id = "job-0" })
unfolding opened
upload_ok = refl

upload_down :
    (upload_source (ports down true) background request start_down).0 ≡ err (unavailable "storage")
unfolding opened
upload_down = refl

upload_source-atomic_example :
    (upload_source (ports down true) background request start_down).1.rows ≡ []
upload_source-atomic_example =
    upload_source-atomic (ports down true) table_view repo_laws deletes_what_is_there background
      request start_down (unavailable "storage") upload_down

abbrev uploaded_rows : List Source
uploaded_rows = (upload_source (ports bucket true) background request (start true)).1.rows

upload_source-IsExtension_example :
    ◌≡◌ {A = Result Bool} (ok true) (ok true)
    × IsExtension (pos 1) (pos 5) "ann" [] uploaded_rows
    × (length (select (owned (pos 5) "ann") uploaded_rows) ≤ max_sources_per_project)
upload_source-IsExtension_example =
    upload_source-IsExtension (ports bucket true) table_view repo_laws background request
      (start true) (record { source_id = pos 1; job_id = "job-0" }) upload_ok

pub ports-AllAnswer : AllAnswer (ports bucket true)
unfolding opened
ports-AllAnswer = record {
  grants = λ ctx project_id s. refl;
  counts = λ ctx project_id owner_id s. (_, refl);
  saves = λ ctx source s. (_, refl);
  marks = λ ctx id status job_id s. refl;
  links = λ ctx id path s. refl;
  stores = λ ctx name bytes size kind s. refl;
  publishes = λ ctx topic key payload s. refl;
}

upload_source-answers_example :
    (source : Source) × let (r, after) =
        upload_source (ports bucket true) background request (start true) in
      let m =
        job_message
          (ports bucket true)
          ports-AllAnswer
          background
          request
          "job-0"
          (placed (ports bucket true) ports-AllAnswer background request source) in
      (r ≡ ok (record { source_id = source.id; job_id = "job-0" }))
      × (after.objects ≡ ("ann/a.pdf", request.reader) ∷ [])
      × (after.topics ≡ m ∷ [])
      × IsExtension source.id (pos 5) "ann" [] after.rows
unfolding opened
upload_source-answers_example =
    upload_source-answers (ports bucket true) ports-AllAnswer background request table_view
      repo_laws (start true) (omega arith)
