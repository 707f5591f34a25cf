-- ===== src/Tests/TestClient.antt =====
-- The test client over a connection in memory.
use sihkaromicro.Prelude.{
  ℕ, zero, suc, pos, ◌≡◌, refl, arith, String, List, [], ◌∷◌, ◌++◌, map, eq_iff,
}
use sihkaromicro.Runtime.Errors.{Result, ok}
use sihkaromicro.Sources.Proto.{UploadMessage, UploadSourceResponse}
use sihkaromicro.Sources.Model.{type_pdf}
use sihkaromicro.Sources.Handler.{read_upload}
use sihkaromicro.Sources.Handler.Chunks.{message}
use sihkaromicro.Sources.Handler.Chunks.Laws.{joined}
use sihkaromicro.Sources.TestClient.{
  FileInfo, File, Connection, send_chunks, send_file, open_stream, main,
}
use sihkaromicro.Sources.TestClient.Accepted.{IsPdf, main-request}
use sihkaromicro.Sources.TestClient.Sent.{ConnectionLaws}

abbrev response : UploadSourceResponse
response = record { source_id = pos 1; job_id = "job-0" }

abbrev wire : Connection
wire = record {
  State = List UploadMessage;
  connect = λ s. (ok tt, s);
  upload_source = λ md s. (ok tt, s);
  send = λ m s. (ok tt, s ++ m ∷ []);
  close_and_recv = λ s. (ok response, s);
}

wire-ConnectionLaws : ConnectionLaws wire (λ s. s)
wire-ConnectionLaws = record {
  log-connect = λ s. refl;
  log-upload_source = λ md s. refl;
  log-send = λ m s h. refl;
  log-close_and_recv = λ s. refl;
}

abbrev zeros : ℕ → List ℕ
zeros zero = []
zeros (suc n) = 0 ∷ zeros n

abbrev info : FileInfo
info = record { name = "a.pdf"; size = pos 514 }

abbrev chunks : List (List ℕ)
chunks = zeros 512 ∷ (1 ∷ 2 ∷ []) ∷ []

abbrev file : File
file = record { stat = ok info; reads = map ok chunks }

abbrev open_file : String → Result File
open_file path = ok file

abbrev detect : List ℕ → String
detect bytes = "application/pdf"

info-IsPdf : IsPdf detect info chunks
unfolding joined
info-IsPdf = record {
  first = zeros 512;
  others = (1 ∷ 2 ∷ []) ∷ [];
  pieces = refl;
  named = λ h. ground (arith, eq_iff "a.pdf" "");
  sized = refl;
  enough = omega arith;
  detected = refl;
  bounded = omega arith;
}

abbrev sent_messages : List UploadMessage
sent_messages = (main wire open_file ("client" ∷ "a.pdf" ∷ "token" ∷ []) []).1

main-request_example :
    read_upload detect "ann" (map message sent_messages)
    ≡ ok (record {
      project_id = pos 1;
      owner_id = "ann";
      name = "a.pdf";
      kind = type_pdf;
      size = pos 514;
      content_type = "application/pdf";
      reader = zeros 512 ++ 1 ∷ 2 ∷ [];
      source_url = "";
    })
unfolding main send_file send_chunks open_stream joined
main-request_example =
    main-request wire (λ s. s) wire-ConnectionLaws detect "ann" open_file "client" "a.pdf" "token"
      [] response file info chunks refl refl refl refl refl info-IsPdf
