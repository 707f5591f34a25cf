-- ===== src/Sources/TestClient.antt =====
-- sources/cmd/testclient/main.go: the client that uploads one file. The connection, the files and
-- the arguments are parameters; what is printed is not modelled. `log.Fatal` ends the program: it is
-- an error with the text that is logged.
pub mod Sent
pub mod Accepted
use sihkaromicro.Prelude.{ℕ, ℤ, pos, String, ◌<>◌, List, [], ◌∷◌, true}
use sihkaromicro.Runtime.Errors.{
  plain, wrap, Result, ok, err, Outcome, returned, panicked, runtime_error,
}
use sihkaromicro.Runtime.Context.{Metadata}
use sihkaromicro.Runtime.Calls.{◌>>=◌, ◌>>◌, Call, pure, raise}
use sihkaromicro.Sources.Proto.{
  UploadMessage, meta, chunk, done, SourceMeta, UploadSourceResponse, source_type_pdf,
}

abbrev pub chunk_size : ℕ
chunk_size = 1048576

pub record FileInfo : Type 0 where
  pub name : String
  pub size : ℤ

-- An open file: what `Stat` answers, and what `Read` gives into a buffer of `chunk_size` bytes, up
-- to io.EOF.
pub record File : Type 0 where
  pub stat : Result FileInfo
  pub reads : List (Result (List ℕ))

-- The connection to the server, and the stream on it.
pub record Connection : Type 1 where
  pub State : Type 0
  pub connect : Call State Unit
  pub upload_source : Metadata → Call State Unit
  pub send : UploadMessage → Call State Unit
  pub close_and_recv : Call State UploadSourceResponse

-- `if err != nil { log.Fatal(text, err) }`
abbrev fatal_error : {A : Type 0} → String → Result A → Result A
fatal_error text (ok a) = ok a
fatal_error text (err e) = err (wrap text e "")

abbrev pub or_fatal : {S A : Type 0} → Call S A → String → Call S A
or_fatal m text s = (fatal_error text (m s).0, (m s).1)

abbrev pub pdf_meta : FileInfo → SourceMeta
pdf_meta info = record {
  project_id = pos 1;
  name = info.name;
  kind = source_type_pdf;
  size = info.size;
  source_url = "";
}

module _ (C : Connection) where
  -- The loop over the file.
  unfoldable pub send_chunks : List (Result (List ℕ)) → Call C.State (Unit {0})
  send_chunks [] = pure tt
  send_chunks (err e ∷ reads) = raise (wrap "failed to read file:" e "")
  send_chunks (ok bytes ∷ reads) = do
    or_fatal (C.send (chunk bytes)) "failed to send chunk:"
    send_chunks reads

  -- From the metadata on.
  unfoldable pub send_file : FileInfo → List (Result (List ℕ)) → Call C.State UploadSourceResponse
  send_file info reads = do
    or_fatal (C.send (meta (pdf_meta info))) "failed to send meta:"
    send_chunks reads
    or_fatal (C.send (done true)) "failed to send done:"
    or_fatal C.close_and_recv "failed to receive response:"

  -- The error of `Stat` is dropped: without a result the next line reads a nil interface.
  abbrev pub with_stat :
      Result FileInfo → List (Result (List ℕ)) → C.State → Outcome UploadSourceResponse × C.State
  with_stat (ok info) reads s = let (r, s') = send_file info reads s in (returned r, s')
  with_stat (err e) reads s =
      (panicked (runtime_error "invalid memory address or nil pointer dereference"), s)

  abbrev pub with_file : Result File → C.State → Outcome UploadSourceResponse × C.State
  with_file (ok file) s = with_stat file.stat file.reads s
  with_file (err e) s = (returned (err (wrap "failed to open file:" e "")), s)

  abbrev pub with_stream :
      Result (Unit {0}) → Result File → C.State → Outcome UploadSourceResponse × C.State
  with_stream (ok _) file s = with_file file s
  with_stream (err e) file s = (returned (err e), s)

  unfoldable pub open_stream : String → Call C.State (Unit {0})
  open_stream token = do
    or_fatal C.connect "failed to connect:"
    or_fatal (C.upload_source (("authorization", ("Bearer " <> token) ∷ []) ∷ []))
        "failed to open stream:"

  -- The arguments start with the name of the program.
  unfoldable pub main :
      (String → Result File) → List String → C.State → Outcome UploadSourceResponse × C.State
  main open_file (_ ∷ file_path ∷ token ∷ _) s =
      let (r, s') = open_stream token s in with_stream r (open_file file_path) s'
  main open_file _ s = (returned (err (plain "Usage: go run main.go <file_path> <token>")), s)
