-- ===== src/Sources/Events.antt =====
-- The events that sources/internal/service/source.go publishes, as JSON texts.
use sihkaromicro.Prelude.{ℤ, pos, ◌≡◌, refl, String, List, [], ◌∷◌, str_eq, if◌then◌else◌}
use sihkaromicro.Runtime.Json.{Value, text, number, marshal}

pub record CreateJobEvent : Type 0 where
  pub job_id : String
  pub kind : String
  pub owner_id : String
  pub source_id : ℤ
  pub minio_path : String
  pub file_type : String
  pub source_url : String

pub record CancelJobEvent : Type 0 where
  pub job_id : String
  pub owner_id : String
  pub source_id : ℤ

-- `omitempty` drops the url where it is empty.
unfoldable pub create_job_payload : CreateJobEvent → String
unfolding marshal
create_job_payload e =
    let url : List (String × Value) =
      if str_eq e.source_url "" then [] else ("source_url", text e.source_url) ∷ [] in
    marshal (
      ("job_id", text e.job_id)
      ∷ ("type", text e.kind)
      ∷ ("owner_id", text e.owner_id)
      ∷ ("source_id", number e.source_id)
      ∷ ("minio_path", text e.minio_path)
      ∷ ("file_type", text e.file_type)
      ∷ url)

unfoldable pub cancel_job_payload : CancelJobEvent → String
unfolding marshal
cancel_job_payload e = marshal (
    ("job_id", text e.job_id)
    ∷ ("owner_id", text e.owner_id)
    ∷ ("source_id", number e.source_id)
    ∷ [])

cancel_job_payload_text :
    cancel_job_payload (record { job_id = "j\"1"; owner_id = "a<b"; source_id = pos 7 })
    ≡ "{\"job_id\":\"j\\\"1\",\"owner_id\":\"a\\u003cb\",\"source_id\":7}"
unfolding cancel_job_payload
cancel_job_payload_text = refl
