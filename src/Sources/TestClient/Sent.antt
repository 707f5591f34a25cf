-- ===== src/Sources/TestClient/Sent.antt =====
-- What the client sends.
use sihkaromicro.Prelude.{
  append_assoc, append_nil, ℕ, ◌≡◌, refl, ap, sym, ◌∙◌, inl, inr, true, String, ◌<>◌, List, [], ◌∷◌,
  ◌++◌, map, arith,
}
use sihkaromicro.Runtime.Errors.{Result, ok, err, returned, Result-cases}
use sihkaromicro.Runtime.Context.{Metadata}
use sihkaromicro.Sources.Proto.{UploadMessage, meta, chunk, done, UploadSourceResponse}
use sihkaromicro.Sources.TestClient.{
  FileInfo, File, Connection, pdf_meta, send_chunks, send_file, open_stream, main,
}

-- A connection keeps what was sent on it; only a send that succeeds adds to it.
pub record ConnectionLaws (C : Connection) (log : C.State → List UploadMessage) : Type 0 where
  pub log-connect : (s : C.State) → log (C.connect s).1 ≡ log s
  pub log-upload_source : (md : Metadata) (s : C.State) → log (C.upload_source md s).1 ≡ log s
  pub log-send :
      (m : UploadMessage) (s : C.State)
      → (C.send m s).0 ≡ ok tt
      → log (C.send m s).1 ≡ log s ++ m ∷ []
  pub log-close_and_recv : (s : C.State) → log (C.close_and_recv s).1 ≡ log s

-- The messages of an upload: metadata, chunks, and the signal behind them.
abbrev pub script : FileInfo → List (List ℕ) → List UploadMessage
script info cs = meta (pdf_meta info) ∷ (map chunk cs ++ done true ∷ [])

module _ (C : Connection) (log : C.State → List UploadMessage) (L : ConnectionLaws C log) where
  log-send_chunks :
      (reads : List (Result (List ℕ))) (s : C.State)
      → (send_chunks C reads s).0 ≡ ok tt
      → (cs : List (List ℕ)) × (reads ≡ map ok cs)
        × (log (send_chunks C reads s).1 ≡ log s ++ map chunk cs)
  unfolding send_chunks
  log-send_chunks [] s h = ([], refl, sym (append_nil (log s)))
  log-send_chunks (err e ∷ reads) s h = absurd (ground arith)
  log-send_chunks (ok c ∷ reads) s h = elim (Result-cases (C.send (chunk c) s).0) [
    | inr (e, failed) ↦ absurd (ground arith)
    | inl (_, went) ↦
        let s₁ = (C.send (chunk c) s).1 in
        let same : send_chunks C (ok c ∷ reads) s ≡ send_chunks C reads s₁ = ground arith in
        let (cs, all_read, logged) = log-send_chunks reads s₁ (ground (arith, same)) in
        (
          c ∷ cs,
          ap (λ t. ok c ∷ t) all_read,
          ap (λ x. log x.1) same
              ∙ logged
              ∙ ap (λ t. t ++ map chunk cs) (L.log-send (chunk c) s went)
              ∙ append_assoc (log s) (chunk c ∷ []) (map chunk cs),
        )
  ]

  log-send_file :
      (info : FileInfo) (reads : List (Result (List ℕ))) (s : C.State)
      (response : UploadSourceResponse)
      → (send_file C info reads s).0 ≡ ok response
      → (cs : List (List ℕ)) × (reads ≡ map ok cs)
        × (log (send_file C info reads s).1 ≡ log s ++ script info cs)
  unfolding send_file
  log-send_file info reads s response h =
      let m = meta (pdf_meta info) in
      let s₁ = (C.send m s).1 in
      let s₂ = (send_chunks C reads s₁).1 in
      let s₃ = (C.send (done true) s₂).1 in
      elim (Result-cases (C.send m s).0) [
        | inr (e, failed) ↦ absurd (ground arith)
        | inl (_, went) ↦ elim (Result-cases (send_chunks C reads s₁).0) [
          | inr (e, failed) ↦ absurd (ground arith)
          | inl (_, all_went) ↦ elim (Result-cases (C.send (done true) s₂).0) [
            | inr (e, failed) ↦ absurd (ground arith)
            | inl (_, last_went) ↦
                let (cs, all_read, logged) = log-send_chunks reads s₁ all_went in
                let end : (send_file C info reads s).1 ≡ (C.close_and_recv s₃).1 = ground arith in
                (
                  cs,
                  all_read,
                  ap log end
                      ∙ L.log-close_and_recv s₃
                      ∙ L.log-send (done true) s₂ last_went
                      ∙ ap (λ t. t ++ done true ∷ [])
                          (logged ∙ ap (λ t. t ++ map chunk cs) (L.log-send m s went))
                      ∙ append_assoc (log s ++ m ∷ []) (map chunk cs) (done true ∷ [])
                      ∙ append_assoc (log s) (m ∷ []) (map chunk cs ++ done true ∷ []),
                )
          ]
        ]
      ]

  -- What a run of the program that ends with a response has done.
  pub record HasUploaded (file : Result File) (s s' : C.State) : Type 0 where
    pub opened : File
    pub info : FileInfo
    pub chunks : List (List ℕ)
    pub found : file ≡ ok opened
    pub known : opened.stat ≡ ok info
    pub all_read : opened.reads ≡ map ok chunks
    pub logged : log s' ≡ log s ++ script info chunks

  log-open_stream : (token : String) (s : C.State) → log (open_stream C token s).1 ≡ log s
  unfolding open_stream
  log-open_stream token s = ground (
    arith,
    L.log-connect s,
    L.log-upload_source (("authorization", ("Bearer " <> token) ∷ []) ∷ []) (C.connect s).1,
  )

  pub main-HasUploaded :
      (open_file : String → Result File) (program path token : String) (s : C.State)
      (response : UploadSourceResponse)
      → (main C open_file (program ∷ path ∷ token ∷ []) s).0 ≡ returned (ok response)
      → HasUploaded (open_file path) s (main C open_file (program ∷ path ∷ token ∷ []) s).1
  unfolding main
  main-HasUploaded open_file program path token s response h =
      let s₁ = (open_stream C token s).1 in
      elim (Result-cases (open_stream C token s).0) [
        | inr (e, failed) ↦ absurd (ground arith)
        | inl (_, streaming) ↦ elim (Result-cases (open_file path)) [
          | inr (e, failed) ↦ absurd (ground arith)
          | inl (file, found) ↦ elim (Result-cases file.stat) [
            | inr (e, failed) ↦ absurd (ground arith)
            | inl (info, known) ↦
                let same : main C open_file (program ∷ path ∷ token ∷ []) s ≡ (
                  returned (send_file C info file.reads s₁).0,
                  (send_file C info file.reads s₁).1,
                ) =
                  ground arith in
                let (cs, all_read, logged) =
                  log-send_file info file.reads s₁ response (ground (arith, same)) in
                record {
                  opened = file;
                  info = info;
                  chunks = cs;
                  found = found;
                  known = known;
                  all_read = all_read;
                  logged =
                      ap (λ x. log x.1) same
                      ∙ logged
                      ∙ ap (λ t. t ++ script info cs) (log-open_stream token s);
                }
          ]
        ]
      ]
