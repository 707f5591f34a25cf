-- ===== src/Sources/TestClient/Accepted.antt =====
-- What the client sends, as the handler of uploads reads it.
use sihkaromicro.Prelude.{
  ℕ, pos, ◌≤◌, ◌≡◌, ◌≢◌, refl, ap, sym, true, false, String, List, [], ◌∷◌, ◌++◌, map, arith,
  length, leb_ℤ, eq_iff,
}
use sihkaromicro.Runtime.Errors.{Result, ok, returned}
use sihkaromicro.Sources.Proto.{UploadMessage, chunk, done, UploadSourceResponse, get_meta}
use sihkaromicro.Sources.Model.{type_pdf}
use sihkaromicro.Sources.Service.{max_file_size}
use sihkaromicro.Sources.Handler.{read_upload, read_body, proto_type_to_model}
use sihkaromicro.Sources.Handler.Chunks.{message, allowed_content_type}
use sihkaromicro.Sources.Handler.Chunks.Laws.{joined, sent, IsUpload, receive_chunks_complete}
use sihkaromicro.Sources.TestClient.{FileInfo, File, Connection, main}
use sihkaromicro.Sources.TestClient.Sent.{ConnectionLaws, script, main-HasUploaded}

map-message : (cs : List (List ℕ)) → map message (map chunk cs ++ done true ∷ []) ≡ sent cs []
unfolding sent
map-message [] = refl
map-message (c ∷ cs) = ap (λ t. message (chunk c) ∷ t) (map-message cs)

-- A file that the server takes: its first read has 512 bytes or more and is detected as a PDF, and
-- its size is positive and at most 1 GiB.
pub record IsPdf (detect : List ℕ → String) (info : FileInfo) (chunks : List (List ℕ))
    : Type 0 where
  pub first : List ℕ
  pub others : List (List ℕ)
  pub pieces : chunks ≡ first ∷ others
  pub named : info.name ≢ ""
  pub sized : leb_ℤ info.size (pos 0) ≡ false
  pub enough : 512 ≤ length first
  pub detected : detect first ≡ "application/pdf"
  pub bounded : length (joined (first ∷ others)) ≤ max_file_size

IsPdf-IsUpload :
    (detect : List ℕ → String) (info : FileInfo) (chunks : List (List ℕ))
    → IsPdf detect info chunks
    → IsUpload detect (sent chunks []) (joined chunks) "application/pdf"
unfolding allowed_content_type
IsPdf-IsUpload detect info chunks f = record {
  first = f.first;
  others = f.others;
  rest = [];
  stream = ap (λ cs. sent cs []) f.pieces;
  contents = ap joined f.pieces;
  detected = sym f.detected;
  allowed = refl;
  enough = f.enough;
  bounded = rw f.pieces f.bounded;
}

-- The messages for such a file are read by the handler as a request for the user, with the bytes of
-- the file.
pub script-request :
    (detect : List ℕ → String) (user_id : String) (info : FileInfo) (chunks : List (List ℕ))
    → IsPdf detect info chunks
    → read_upload detect user_id (map message (script info chunks))
      ≡ ok (record {
        project_id = pos 1;
        owner_id = user_id;
        name = info.name;
        kind = type_pdf;
        size = info.size;
        content_type = "application/pdf";
        reader = joined chunks;
        source_url = "";
      })
unfolding read_upload read_body get_meta proto_type_to_model
script-request detect user_id info chunks f =
    let received =
      receive_chunks_complete detect (sent chunks []) (joined chunks) "application/pdf"
        (IsPdf-IsUpload detect info chunks f) in
    let sized = f.sized in
    let named = f.named in rw (map-message chunks) (ground (arith, received, eq_iff info.name ""))

abbrev read_all : List (List ℕ) → List (Result (List ℕ))
read_all = map ok

read_all_injective : (cs ds : List (List ℕ)) → read_all cs ≡ read_all ds → cs ≡ ds
read_all_injective [] [] h = refl
read_all_injective [] (d ∷ ds) h = absurd (ground arith)
read_all_injective (c ∷ cs) [] h = absurd (ground arith)
read_all_injective (c ∷ cs) (d ∷ ds) h =
    let tails = read_all_injective cs ds cc in ground (arith, tails)

-- Over a connection that logs what it sends: if the program ends with a response for a PDF file that
-- the server takes, then what it has sent is read by the handler, for any user, as a request that
-- uploads the bytes of the file into project 1 under the name and size of the file.
pub main-request :
    (C : Connection) (log : C.State → List UploadMessage)
    → ConnectionLaws C log
    → (detect : List ℕ → String) (user_id : String) (open_file : String → Result File)
      (program path token : String) (s : C.State) (response : UploadSourceResponse) (file : File)
      (info : FileInfo) (chunks : List (List ℕ))
    → log s ≡ []
    → (main C open_file (program ∷ path ∷ token ∷ []) s).0 ≡ returned (ok response)
    → open_file path ≡ ok file
    → file.stat ≡ ok info
    → file.reads ≡ map ok chunks
    → IsPdf detect info chunks
    → read_upload detect user_id
        (map message (log (main C open_file (program ∷ path ∷ token ∷ []) s).1))
      ≡ ok (record {
        project_id = pos 1;
        owner_id = user_id;
        name = info.name;
        kind = type_pdf;
        size = info.size;
        content_type = "application/pdf";
        reader = joined chunks;
        source_url = "";
      })
main-request C log L detect user_id open_file program path token s response file info chunks fresh
      ended found known all_read pdf =
    let u = main-HasUploaded C log L open_file program path token s response ended in
    let opened = u.found in
    let stat = u.known in
    let reads = u.all_read in
    let same_file : u.opened ≡ file = ground arith in
    let same_info : u.info ≡ info = ground arith in
    let same_chunks : u.chunks ≡ chunks = read_all_injective u.chunks chunks (ground arith) in
    rw (u.logged, fresh, same_info, same_chunks) (script-request detect user_id info chunks pdf)
