-- ===== src/Tests/Handler.antt =====
-- The handlers over the ports in memory, with a verifier that knows one token.
use sihkaromicro.Prelude.{
  ℕ, zero, suc, pos, ◌≡◌, ◌↔◌, refl, true, String, some, List, [], ◌∷◌, map, find, All, arith,
  if◌then◌else◌, str_eq, eq_iff,
}
use sihkaromicro.Runtime.Errors.{plain, Result, ok, err, status, Code}
use sihkaromicro.Runtime.Context.{Context, background, values_of}
use sihkaromicro.Runtime.Text.{trim_prefix}
use sihkaromicro.Sources.Proto.{
  SourceMeta, SourceResponse, meta, chunk, done, get_meta, get_chunk, get_done,
}
use sihkaromicro.Sources.Model.{Source, to_proto, type_pdf}
use sihkaromicro.Sources.Spec.{chosen}
use sihkaromicro.Sources.Service
use sihkaromicro.Sources.Service.{UploadSourceRequest}
use sihkaromicro.Sources.Interceptor.{
  Verifier, serve, unary, authorize, with_user, must_user_id_from_ctx,
}
use sihkaromicro.Sources.Repository.{find_by_project_id_and_owner_id}
use sihkaromicro.Sources.Handler.Chunks.{
  Event, message, allowed_content_type, accept_first, append_chunk, take_chunk, receive_loop,
  receive_chunks, drain_stream,
}
use sihkaromicro.Sources.Handler.Chunks.Laws.{IsSmall, IsUpload, receive_chunks-IsUpload}
use sihkaromicro.Sources.Handler.{
  proto_type_to_model, read_body, read_upload, upload_source, retry_job, get_source, list_sources,
  delete_source, uploaded, detail_to_proto,
}
use sihkaromicro.Sources.Handler.Uploads.{IsRequest, read_upload-IsRequest}
use sihkaromicro.Sources.Handler.Boundary.{IsUser, as_user}
use sihkaromicro.Sources.Handler.Served.{
  answered, stranger-IsUnauthenticated, user-IsServed, get_source-IsShown,
}
use sihkaromicro.Sources.Ports.{World}
use sihkaromicro.Sources.Service.Upload
use sihkaromicro.Tests.Memory.{ports, bucket, table_view, repo_laws}
use sihkaromicro.Tests.Service.{row, stored}

abbrev pub detect : List ℕ → String
detect bytes = "application/pdf"

abbrev zeros : ℕ → List ℕ
zeros zero = []
zeros (suc n) = 0 ∷ zeros n

abbrev file_meta : SourceMeta
file_meta = record {
  project_id = pos 5;
  name = "a.pdf";
  kind = pos 1;
  size = pos 512;
  source_url = "";
}

abbrev body : List Event
body = message (chunk (zeros 512)) ∷ message (done true) ∷ []

IsSmall-body : All IsSmall body
unfolding IsSmall
IsSmall-body = (ground arith, (tt, tt))

opened : Unit {0}
unfolding accept_first append_chunk take_chunk receive_loop receive_chunks drain_stream get_meta
    get_chunk get_done proto_type_to_model read_body read_upload allowed_content_type
opened = tt

received : receive_chunks detect body ≡ ok (zeros 512, "application/pdf")
unfolding opened
received = refl

receive_chunks-IsUpload_example :
    (receive_chunks detect body ≡ ok (zeros 512, "application/pdf"))
    ↔ IsUpload detect body (zeros 512) "application/pdf"
receive_chunks-IsUpload_example =
    receive_chunks-IsUpload detect body (zeros 512) "application/pdf" IsSmall-body

abbrev file_request : UploadSourceRequest
file_request = record {
  project_id = pos 5;
  owner_id = "ann";
  name = "a.pdf";
  kind = type_pdf;
  size = pos 512;
  content_type = "application/pdf";
  reader = zeros 512;
  source_url = "";
}

abbrev upload_events : List Event
upload_events = message (meta file_meta) ∷ body

read_file : read_upload detect "ann" upload_events ≡ ok file_request
unfolding opened
read_file = refl

read_upload-IsRequest_example : IsRequest detect "ann" upload_events file_request
unfolding IsSmall
read_upload-IsRequest_example =
    read_upload-IsRequest detect "ann" upload_events file_request (tt, IsSmall-body) read_file

abbrev pub gate : Verifier
gate = record {
  Token = String;
  verify = λ ctx raw. if str_eq raw "good" then ok raw else err (plain "oidc: malformed jwt");
  claims =
      λ token. ok (record { sub = "ann"; preferred_username = "ann"; email = ""; azp = "web" });
}

abbrev pub ann : Context
ann = record background { incoming = some (("authorization", "Bearer good" ∷ []) ∷ []) }

pub ann-IsUser : IsUser gate ann "ann"
unfolding values_of trim_prefix
ann-IsUser = record {
  metadata = ("authorization", "Bearer good" ∷ []) ∷ [];
  value = "Bearer good";
  values = [];
  token = "good";
  claims = record { sub = "ann"; preferred_username = "ann"; email = ""; azp = "web" };
  incoming = refl;
  authorization = refl;
  verified = refl;
  claimed = refl;
  named = (refl, ground (arith, eq_iff "ann" ""));
}

nobody : (user_id : String) → ¬ IsUser gate background user_id
nobody user_id u = let e = u.incoming in ground arith

stranger-IsUnauthenticated_example :
    let E = ports bucket true in
    let IsRefused = λ (A : Type 0) (r : Result A × World E).
      (m : String) × (r ≡ (err (status Code.unauthenticated m), stored)) in
    IsRefused _ (serve gate (upload_source E detect upload_events) background stored)
    × IsRefused _ (
        serve gate
          (retry_job E (record { source_id = pos 1; project_id = pos 5 }))
          background
          stored)
    × IsRefused _
        (serve gate (get_source E (record { id = pos 1; project_id = pos 5 })) background stored)
    × IsRefused _ (serve gate (list_sources E (record { project_id = pos 5 })) background stored)
    × IsRefused _
        (serve gate (delete_source E (record { id = pos 1; project_id = pos 5 })) background stored)
stranger-IsUnauthenticated_example =
    stranger-IsUnauthenticated gate (ports bucket true) detect background stored nobody
      upload_events (pos 1) (pos 5)

user-IsServed_example :
    let E = ports bucket true in
    let c = as_user gate ann "ann" in
    (serve gate (upload_source E detect upload_events) ann stored
      ≡ answered gate E detect ann stored uploaded (Upload.upload_source E c file_request stored))
    × (serve gate (retry_job E (record { source_id = pos 1; project_id = pos 5 })) ann stored
        ≡ answered gate E detect ann stored
            (λ j. record { job_id = j })
            (Service.retry_job E c (pos 1) (pos 5) "ann" stored))
    × (serve gate (get_source E (record { id = pos 1; project_id = pos 5 })) ann stored
        ≡ answered gate E detect ann stored
            (λ d. record { source = detail_to_proto d })
            (Service.get_source E c (pos 1) (pos 5) "ann" stored))
    × (serve gate (list_sources E (record { project_id = pos 5 })) ann stored
        ≡ answered gate E detect ann stored
            (λ ds. record { sources = map detail_to_proto ds })
            (Service.list_sources E c (pos 5) "ann" stored))
    × (serve gate (delete_source E (record { id = pos 1; project_id = pos 5 })) ann stored
        ≡ answered gate E detect ann stored
            (λ _. record { success = true })
            (Service.delete_source E c (pos 1) (pos 5) "ann" stored))
user-IsServed_example =
    user-IsServed gate (ports bucket true) detect ann stored "ann" ann-IsUser upload_events
      file_request (pos 1) (pos 5) read_file

abbrev shown : SourceResponse
shown = record {
  source = record {
    id = pos 1;
    project_id = pos 5;
    owner_id = "ann";
    name = "a.pdf";
    kind = pos 1;
    status = pos 6;
    size = pos 3;
    job_id = "job-9";
    url = "https://store/ann/a.pdf";
    error = "";
    source_url = "";
    created_at = 7;
    updated_at = 7;
  };
}

served :
    (serve gate
      (get_source (ports bucket true) (record { id = pos 1; project_id = pos 5 }))
      ann
      stored).0
    ≡ ok shown
unfolding to_proto get_source serve unary authorize values_of trim_prefix with_user
    must_user_id_from_ctx Service.get_source Service.check_project_access
    find_by_project_id_and_owner_id find Service.sign
served = refl

get_source-IsShown_example :
    (r : Source) × (find (chosen (pos 1) (pos 5) "ann") (row ∷ []) ≡ some r)
    × (shown.source ≡ record (to_proto r) { url = shown.source.url })
get_source-IsShown_example =
    get_source-IsShown gate (ports bucket true) detect ann stored table_view repo_laws "ann"
      ann-IsUser (pos 1) (pos 5) shown served
