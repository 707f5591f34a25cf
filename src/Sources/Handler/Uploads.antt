-- ===== src/Sources/Handler/Uploads.antt =====
-- What a stream must be for the handler of uploads to reach the service.
use sihkaromicro.Prelude.{
  ℕ, ℤ, pos, ◌==ℤ◌, ==ℤ_iff, leb_ℤ, ◌≡◌, ◌≢◌, refl, ◌⊎◌, inl, inr, false, true, String, List, [],
  ◌∷◌, arith, All, eq_iff, Bool-cases,
}
use sihkaromicro.Runtime.Errors.{ok, Result-cases}
use sihkaromicro.Sources.Proto
use sihkaromicro.Sources.Proto.{SourceMeta, UploadMessage, unset, meta, chunk, done, get_meta}
use sihkaromicro.Sources.Model.{type_pdf, type_txt, type_docx, type_markdown, type_url}
use sihkaromicro.Sources.Service.{UploadSourceRequest}
use sihkaromicro.Sources.Handler.Chunks.{Event, message, failure, receive_chunks, drain_stream}
use sihkaromicro.Sources.Handler.Chunks.Laws.{IsSmall, IsUpload, receive_chunks-IsUpload}
use sihkaromicro.Sources.Handler.{proto_type_to_model, read_body, read_upload}

-- The body of a request: for a url no bytes, for a file an upload of its bytes.
pub record IsUrl (req : UploadSourceRequest) : Type 0 where
  pub kind : req.kind ≡ type_url
  pub address : req.source_url ≢ ""
  pub no_bytes : req.reader ≡ []

pub record IsFile (detect : List ℕ → String) (events : List Event) (req : UploadSourceRequest)
    : Type 0 where
  pub kind : req.kind ≢ type_url
  pub size : leb_ℤ req.size (pos 0) ≡ false
  pub bytes : IsUpload detect events req.reader req.content_type

-- A request that a user's stream makes: its first message is the metadata, which it repeats.
pub record IsRequest (detect : List ℕ → String) (user_id : String) (events : List Event)
    (req : UploadSourceRequest) : Type 0 where
  pub first : SourceMeta
  pub later : List Event
  pub stream : events ≡ message (meta first) ∷ later
  pub owner : req.owner_id ≡ user_id
  pub project : (req.project_id ≡ first.project_id) × (leb_ℤ req.project_id (pos 0) ≡ false)
  pub name : (req.name ≡ first.name) × (req.name ≢ "")
  pub body : IsUrl req ⊎ IsFile detect later req

proto_type_to_model-url :
    (t : ℤ) → (t ==ℤ Proto.source_type_url) ≡ true → proto_type_to_model t ≡ type_url
unfolding proto_type_to_model
proto_type_to_model-url t h = ground (arith, ==ℤ_iff t Proto.source_type_url)

proto_type_to_model-not_url :
    (t : ℤ) → (t ==ℤ Proto.source_type_url) ≡ false → proto_type_to_model t ≢ type_url
unfolding proto_type_to_model
proto_type_to_model-not_url t h e = ground (
  arith,
  eq_iff type_pdf type_url,
  eq_iff type_txt type_url,
  eq_iff type_docx type_url,
  eq_iff type_markdown type_url,
)

module _ (detect : List ℕ → String) (user_id : String) where
  read_body-ok :
      (m : SourceMeta) (events : List Event) (req : UploadSourceRequest)
      → All IsSmall events
      → read_body detect user_id m events ≡ ok req
      → IsRequest detect user_id (message (meta m) ∷ events) req
  unfolding read_body
  read_body-ok m events req small h = elim (Bool-cases (m.kind ==ℤ Proto.source_type_url)) [
    | inl url ↦
        let kind = proto_type_to_model-url m.kind url in
        let named = eq_iff m.name "" in
        let addressed = eq_iff m.source_url "" in
        elim (Result-cases (drain_stream events)) [
          | inr (e, broken) ↦ absurd (ground arith)
          | inl (_, drained) ↦ record {
            first = m;
            later = events;
            stream = refl;
            owner = ground arith;
            project = (ground arith, ground arith);
            name = (ground arith, ground arith);
            body =
                inl
                  (record { kind = ground arith; address = ground arith; no_bytes = ground arith });
          }
        ]
    | inr file ↦
        let kind = proto_type_to_model-not_url m.kind file in
        let named = eq_iff m.name "" in
        elim (Result-cases (receive_chunks detect events)) [
          | inr (e, broken) ↦ absurd (ground arith)
          | inl ((bytes, content_type), received) ↦
              let upload =
                (receive_chunks-IsUpload detect events bytes content_type small).0 received in
              let reader : req.reader ≡ bytes = ground arith in
              let kind_of : req.content_type ≡ content_type = ground arith in
              record {
                first = m;
                later = events;
                stream = refl;
                owner = ground arith;
                project = (ground arith, ground arith);
                name = (ground arith, ground arith);
                body = inr (record {
                  kind = ground arith;
                  size = ground arith;
                  bytes = rw (reader, kind_of) upload;
                });
              }
        ]
  ]

  -- Where every message holds under 2^62 bytes, a stream that the handler turns into a request to
  -- the service starts with metadata that has a positive project and a name, which the request
  -- repeats with the user as the owner; it is of the type url with an address and no bytes, or of
  -- another type with a positive size and the bytes of an upload.
  pub read_upload-IsRequest :
      (events : List Event) (req : UploadSourceRequest)
      → All IsSmall events
      → read_upload detect user_id events ≡ ok req
      → IsRequest detect user_id events req
  unfolding read_upload get_meta
  read_upload-IsRequest [] req small h = absurd (ground arith)
  read_upload-IsRequest (failure e ∷ events) req small h = absurd (ground arith)
  read_upload-IsRequest (message unset ∷ events) req small h = absurd (ground arith)
  read_upload-IsRequest (message (chunk c) ∷ events) req small h = absurd (ground arith)
  read_upload-IsRequest (message (done b) ∷ events) req small h = absurd (ground arith)
  read_upload-IsRequest (message (meta m) ∷ events) req (_, small) h =
      read_body-ok m events req small h
