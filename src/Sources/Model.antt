-- ===== src/Sources/Model.antt =====
-- sources/internal/model/source.go: a source, its types and statuses, and its protobuf message.
-- Times are seconds since an epoch; `timestamppb.New` keeps them.
use sihkaromicro.Prelude.{ℕ, ℤ, String, str_eq, if◌then◌else◌}
use sihkaromicro.Sources.Proto
use sihkaromicro.Sources.Proto.{SourceMessage}

-- A `SourceStatus` is any text: the column `status` may hold other texts than the constants.
abbrev pub SourceStatus : Type 0
SourceStatus = String

abbrev pub SourceType : Type 0
SourceType = String

abbrev pub status_uploading : SourceStatus
status_uploading = "uploading"

abbrev pub status_uploaded : SourceStatus
status_uploaded = "uploaded"

abbrev pub status_pending : SourceStatus
status_pending = "pending"

abbrev pub status_processing : SourceStatus
status_processing = "processing"

abbrev pub status_ready : SourceStatus
status_ready = "ready"

abbrev pub status_failed : SourceStatus
status_failed = "failed"

abbrev pub type_pdf : SourceType
type_pdf = "pdf"

abbrev pub type_txt : SourceType
type_txt = "txt"

abbrev pub type_docx : SourceType
type_docx = "docx"

abbrev pub type_markdown : SourceType
type_markdown = "markdown"

abbrev pub type_url : SourceType
type_url = "url"

-- The tag `default:uploading` of the field `Status`: an empty status is not written.
abbrev pub status_or_default : SourceStatus → SourceStatus
status_or_default s = if str_eq s "" then status_uploading else s

pub record Source : Type 0 where
  pub id : ℤ
  pub project_id : ℤ
  pub owner_id : String
  pub name : String
  pub kind : SourceType
  pub status : SourceStatus
  pub size : ℤ
  pub minio_path : String
  pub job_id : String
  pub error : String
  pub source_url : String
  pub created_at : ℕ
  pub updated_at : ℕ

unfoldable pub source_type_to_proto : SourceType → ℤ
source_type_to_proto t =
    if str_eq t type_pdf
    then Proto.source_type_pdf
    else if str_eq t type_txt
    then Proto.source_type_txt
    else if str_eq t type_docx
    then Proto.source_type_docx
    else if str_eq t type_markdown
    then Proto.source_type_markdown
    else if str_eq t type_url
    then Proto.source_type_url
    else Proto.source_type_unspecified

unfoldable pub source_status_to_proto : SourceStatus → ℤ
source_status_to_proto s =
    if str_eq s status_uploading
    then Proto.source_status_uploading
    else if str_eq s status_uploaded
    then Proto.source_status_uploaded
    else if str_eq s status_pending
    then Proto.source_status_pending
    else if str_eq s status_processing
    then Proto.source_status_processing
    else if str_eq s status_ready
    then Proto.source_status_ready
    else if str_eq s status_failed
    then Proto.source_status_failed
    else Proto.source_status_unspecified

-- The url is left empty: the handler puts the signed url there.
unfoldable pub to_proto : Source → SourceMessage
unfolding source_type_to_proto source_status_to_proto
to_proto s = record {
  id = s.id;
  project_id = s.project_id;
  owner_id = s.owner_id;
  name = s.name;
  kind = source_type_to_proto s.kind;
  status = source_status_to_proto s.status;
  size = s.size;
  job_id = s.job_id;
  url = "";
  error = s.error;
  source_url = s.source_url;
  created_at = s.created_at;
  updated_at = s.updated_at;
}
