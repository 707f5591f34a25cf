-- ===== src/Sources/Proto.antt =====
-- The messages of the sources service that its handlers read and write, with the getters that
-- protoc generated for them (proto/sources/sources.pb.go). A protobuf enum is open: any int32.
use sihkaromicro.Prelude.{ℕ, ℤ, pos, String, Bool, false, Option, none, some, List}

abbrev pub source_type_unspecified : ℤ
source_type_unspecified = pos 0

abbrev pub source_type_pdf : ℤ
source_type_pdf = pos 1

abbrev pub source_type_txt : ℤ
source_type_txt = pos 2

abbrev pub source_type_docx : ℤ
source_type_docx = pos 3

abbrev pub source_type_markdown : ℤ
source_type_markdown = pos 4

abbrev pub source_type_url : ℤ
source_type_url = pos 5

abbrev pub source_status_unspecified : ℤ
source_status_unspecified = pos 0

abbrev pub source_status_uploading : ℤ
source_status_uploading = pos 1

abbrev pub source_status_uploaded : ℤ
source_status_uploaded = pos 2

abbrev pub source_status_pending : ℤ
source_status_pending = pos 3

abbrev pub source_status_processing : ℤ
source_status_processing = pos 4

abbrev pub source_status_ready : ℤ
source_status_ready = pos 5

abbrev pub source_status_failed : ℤ
source_status_failed = pos 6

pub record SourceMessage : Type 0 where
  pub id : ℤ
  pub project_id : ℤ
  pub owner_id : String
  pub name : String
  pub kind : ℤ
  pub status : ℤ
  pub size : ℤ
  pub job_id : String
  pub url : String
  pub error : String
  pub source_url : String
  pub created_at : ℕ
  pub updated_at : ℕ

pub record SourceMeta : Type 0 where
  pub project_id : ℤ
  pub name : String
  pub kind : ℤ
  pub size : ℤ
  pub source_url : String

-- The `oneof data` of an UploadSourceRequest; a oneof that is not set is `unset`.
pub data UploadMessage : Type 0 where
  unset : UploadMessage
  meta : SourceMeta → UploadMessage
  chunk : List ℕ → UploadMessage
  done : Bool → UploadMessage

-- A getter answers the zero value where another member of the oneof is set.
unfoldable pub get_meta : UploadMessage → Option SourceMeta
get_meta (meta m) = some m
get_meta _ = none

-- `none` is a nil slice. The bytes of a set member are never nil: an empty chunk is `some []`.
unfoldable pub get_chunk : UploadMessage → Option (List ℕ)
get_chunk (chunk bytes) = some bytes
get_chunk _ = none

unfoldable pub get_done : UploadMessage → Bool
get_done (done b) = b
get_done _ = false

pub record UploadSourceResponse : Type 0 where
  pub source_id : ℤ
  pub job_id : String

pub record RetryJobRequest : Type 0 where
  pub source_id : ℤ
  pub project_id : ℤ

pub record RetryJobResponse : Type 0 where
  pub job_id : String

pub record GetSourceRequest : Type 0 where
  pub id : ℤ
  pub project_id : ℤ

pub record SourceResponse : Type 0 where
  pub source : SourceMessage

pub record ListSourcesRequest : Type 0 where
  pub project_id : ℤ

pub record ListSourcesResponse : Type 0 where
  pub sources : List SourceMessage

pub record DeleteSourceRequest : Type 0 where
  pub id : ℤ
  pub project_id : ℤ

pub record DeleteSourceResponse : Type 0 where
  pub success : Bool
