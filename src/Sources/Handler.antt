-- ===== src/Sources/Handler.antt =====
-- sources/internal/handler/sources.go: the five operations as the gRPC server calls them, over any
-- ports. What the handlers log is not modelled. A unary handler is a `Handler` of the world; an
-- upload reads its stream from a list of events. `http.DetectContentType` is a parameter.
pub mod Chunks
pub mod Uploads
pub mod Boundary
pub mod Served
pub mod Types
use sihkaromicro.Prelude.{
  ℕ, ℤ, pos, ◌==ℤ◌, leb_ℤ, Bool, true, false, String, Option, none, some, List, [], ◌∷◌, map,
  str_eq, if◌then◌else◌,
}
use sihkaromicro.Runtime.Errors.{Error, status, Code, Result, ok, err, Outcome, returned}
use sihkaromicro.Runtime.Context.{Context}
use sihkaromicro.Runtime.Calls.{Call}
use sihkaromicro.Sources.Proto
use sihkaromicro.Sources.Proto.{
  SourceMessage, SourceMeta, get_meta, UploadSourceResponse, RetryJobRequest, RetryJobResponse,
  GetSourceRequest, SourceResponse, ListSourcesRequest, ListSourcesResponse, DeleteSourceRequest,
  DeleteSourceResponse,
}
use sihkaromicro.Sources.Model.{
  SourceType, type_pdf, type_txt, type_docx, type_markdown, type_url, to_proto,
}
use sihkaromicro.Sources.Apperr.{to_grpc}
use sihkaromicro.Sources.Interceptor.{Handler, with_user}
use sihkaromicro.Sources.Ports.{Ports, World}
use sihkaromicro.Sources.Service
use sihkaromicro.Sources.Service.{UploadSourceRequest, UploadSourceResult, SourceDetail}
use sihkaromicro.Sources.Service.Upload
use sihkaromicro.Sources.Handler.Chunks.{
  Event, message, failure, invalid, receive_chunks, drain_stream,
}

unfoldable pub proto_type_to_model : ℤ → SourceType
proto_type_to_model t =
    if t ==ℤ Proto.source_type_pdf
    then type_pdf
    else if t ==ℤ Proto.source_type_txt
    then type_txt
    else if t ==ℤ Proto.source_type_docx
    then type_docx
    else if t ==ℤ Proto.source_type_markdown
    then type_markdown
    else if t ==ℤ Proto.source_type_url
    then type_url
    else type_txt

-- `if err != nil { return nil, apperr.ToGRPC(err) }`, and the response otherwise.
abbrev pub respond : {A B : Type 0} → (A → B) → Result A → Outcome B
respond f (ok a) = returned (ok (f a))
respond f (err e) = returned (err (to_grpc e))

abbrev pub answer : {W A B : Type 0} → (A → B) → Call W A → W → Outcome B × W
answer f m w = (respond f (m w).0, (m w).1)

-- `proto := d.Source.ToProto(); proto.Url = d.SignedURL`
abbrev pub detail_to_proto : SourceDetail → SourceMessage
detail_to_proto d = record (to_proto d.source) { url = d.signed_url }

abbrev request_of : String → SourceMeta → List ℕ → String → UploadSourceRequest
request_of user_id m reader content_type = record {
  project_id = m.project_id;
  owner_id = user_id;
  name = m.name;
  kind = proto_type_to_model m.kind;
  size = m.size;
  content_type = content_type;
  reader = reader;
  source_url = m.source_url;
}

abbrev of_drained : String → SourceMeta → Result (Unit {0}) → Result UploadSourceRequest
of_drained user_id m (err e) = err e
of_drained user_id m (ok _) = ok (request_of user_id m [] "")

abbrev of_received : String → SourceMeta → Result (List ℕ × String) → Result UploadSourceRequest
of_received user_id m (err e) = err e
of_received user_id m (ok (bytes, content_type)) = ok (request_of user_id m bytes content_type)

module _ (detect_content_type : List ℕ → String) where
  -- The checks of the metadata, and what is read after it.
  unfoldable pub read_body : String → SourceMeta → List Event → Result UploadSourceRequest
  read_body user_id m events =
      if leb_ℤ m.project_id (pos 0)
      then err (invalid "project_id is required")
      else if str_eq m.name ""
      then err (invalid "name is required")
      else if m.kind ==ℤ Proto.source_type_unspecified
      then err (invalid "source type is required")
      else if m.kind ==ℤ Proto.source_type_url
      then (if str_eq m.source_url ""
          then err (invalid "source_url is required for URL type")
          else of_drained user_id m (drain_stream events))
      else if leb_ℤ m.size (pos 0)
      then err (invalid "size is required for file upload")
      else of_received user_id m (receive_chunks detect_content_type events)

  abbrev with_meta : String → Option SourceMeta → List Event → Result UploadSourceRequest
  with_meta user_id none events = err (invalid "first message must contain metadata")
  with_meta user_id (some m) events = read_body user_id m events

  -- The handler up to the call of the service.
  unfoldable pub read_upload : String → List Event → Result UploadSourceRequest
  read_upload user_id [] = err (invalid "failed to receive metadata")
  read_upload user_id (failure e ∷ events) = err (invalid "failed to receive metadata")
  read_upload user_id (message m ∷ events) = with_meta user_id (get_meta m) events

abbrev pub uploaded : UploadSourceResult → UploadSourceResponse
uploaded r = record { source_id = r.source_id; job_id = r.job_id }

module _ (E : Ports) where
  abbrev pub submit :
      Context → Result UploadSourceRequest → World E → Outcome UploadSourceResponse × World E
  submit ctx (err e) w = (returned (err e), w)
  submit ctx (ok req) w = answer uploaded (Upload.upload_source E ctx req) w

  unfoldable pub upload_source :
      (List ℕ → String) → List Event → Handler (World E) UploadSourceResponse
  upload_source detect events ctx =
      with_user (λ user_id w. submit ctx (read_upload detect user_id events) w) ctx

  unfoldable pub retry_job : RetryJobRequest → Handler (World E) RetryJobResponse
  retry_job req ctx =
      with_user
        (λ user_id.
          answer (λ job_id. record { job_id = job_id })
            (Service.retry_job E ctx req.source_id req.project_id user_id))
        ctx

  unfoldable pub get_source : GetSourceRequest → Handler (World E) SourceResponse
  get_source req ctx =
      with_user
        (λ user_id.
          answer (λ d. record { source = detail_to_proto d })
            (Service.get_source E ctx req.id req.project_id user_id))
        ctx

  unfoldable pub list_sources : ListSourcesRequest → Handler (World E) ListSourcesResponse
  list_sources req ctx =
      with_user
        (λ user_id.
          answer (λ ds. record { sources = map detail_to_proto ds })
            (Service.list_sources E ctx req.project_id user_id))
        ctx

  unfoldable pub delete_source : DeleteSourceRequest → Handler (World E) DeleteSourceResponse
  delete_source req ctx =
      with_user
        (λ user_id.
          answer (λ _. record { success = true })
            (Service.delete_source E ctx req.id req.project_id user_id))
        ctx
