-- ===== src/Sources/Handler/Chunks.antt =====
-- `receiveChunks` and `drainStream` of sources/internal/handler/sources.go. What `Recv` returns is a
-- list of messages and failures, with io.EOF at its end.
pub mod Laws
use sihkaromicro.Prelude.{
  ℕ, ◌+◌, ◌%◌, ◌^◌, Bool, true, false, ◌&&◌, ◌||◌, not, String, ◌<>◌, Option, none, some, List, [],
  ◌∷◌, ◌++◌, length, ltb, ◌==◌, str_eq, if◌then◌else◌,
}
use sihkaromicro.Runtime.Errors.{Error, status, Code, Result, ok, err}
use sihkaromicro.Sources.Proto.{UploadMessage, get_done, get_chunk}
use sihkaromicro.Sources.Service.{max_file_size}

pub data Event : Type 0 where
  message : UploadMessage → Event
  failure : Error → Event

unfoldable pub allowed_content_type : String → Bool
allowed_content_type t =
    str_eq t "application/pdf"
    || str_eq t "text/plain"
    || str_eq t "application/vnd.openxmlformats-officedocument.wordprocessingml.document"
    || str_eq t "text/markdown"

-- The variables of the loop. The sum is an int64, kept as its bits.
pub record Loop : Type 0 where
  pub buf : List ℕ
  pub total_size : ℕ
  pub content_type : String
  pub first_chunk : Bool

abbrev pub entry : Loop
entry = record { buf = []; total_size = 0; content_type = ""; first_chunk = true }

abbrev pub invalid : String → Error
invalid m = status Code.invalid_argument m

-- `totalSize > maxFileSize`; with the top bit set the int64 is negative.
abbrev pub exceeds : ℕ → Bool
exceeds total = ltb max_file_size total && ltb total (2 ^ 63)

-- After the loop.
abbrev pub finish : Loop → Bool → Result (List ℕ × String)
finish s false = err (status Code.canceled "upload incomplete: stream closed before done signal")
finish s true = if length s.buf == 0 then err (invalid "empty file") else ok (s.buf, s.content_type)

-- `http.DetectContentType` is a parameter.
module _ (detect_content_type : List ℕ → String) where
  -- The test of the first chunk.
  unfoldable pub accept_first : List ℕ → Loop → Result Loop
  accept_first chunk s =
      if ltb (length chunk) 512
      then err (invalid "first chunk too small for content-type detection")
      else if allowed_content_type (detect_content_type chunk)
      then ok (record s { content_type = detect_content_type chunk; first_chunk = false })
      else err (invalid ("unsupported file type: " <> detect_content_type chunk))

  -- The sum of the sizes, its test, and the write.
  unfoldable pub append_chunk : List ℕ → Loop → Result Loop
  append_chunk chunk s =
      let total = (s.total_size + length chunk) % 2 ^ 64 in
      if exceeds total
      then err (invalid "file exceeds maximum allowed size")
      else ok (record s { total_size = total; buf = s.buf ++ chunk })

  abbrev then_append : List ℕ → Result Loop → Result Loop
  then_append chunk (ok s) = append_chunk chunk s
  then_append chunk (err e) = err e

  unfoldable pub take_chunk : List ℕ → Loop → Result Loop
  take_chunk chunk s = then_append chunk (if s.first_chunk then accept_first chunk s else ok s)

  abbrev pub took : Option (List ℕ) → Loop → Result Loop
  took none s = err (invalid "expected chunk or done signal")
  took (some chunk) s = take_chunk chunk s

  unfoldable pub receive_loop : List Event → Loop → Result (List ℕ × String)
  receive_loop [] s = finish s false
  receive_loop (failure e ∷ events) s = err (status Code.internal "stream error")
  receive_loop (message m ∷ events) s = elim (get_done m) [
    | true ↦ finish s true
    | false ↦ elim (took (get_chunk m) s) [ err e ↦ err e | ok s' ↦ receive_loop events s' ]
  ]

  unfoldable pub receive_chunks : List Event → Result (List ℕ × String)
  receive_chunks events = receive_loop events entry

-- For a url the rest of the stream is read up to `done` or its end.
unfoldable pub drain_stream : List Event → Result (Unit {0})
drain_stream [] = ok tt
drain_stream (failure e ∷ events) = err (status Code.internal "stream error")
drain_stream (message m ∷ events) =
    let rest = drain_stream events in if get_done m then ok tt else rest
