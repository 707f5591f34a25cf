-- ===== src/Sources/Handler/Chunks/Laws.antt =====
-- Which streams of chunks are accepted, and what is made of them.
use sihkaromicro.Prelude.{
  append_assoc, append_nil, ℕ, ◌+◌, ◌≤◌, ◌<◌, ◌^◌, ◌≡◌, refl, ap, sym, ◌∙◌, inl, inr, ◌↔◌, true,
  false, String, List, [], ◌∷◌, ◌++◌, arith, length, All,
}
use sihkaromicro.Runtime.Errors.{Error, ok, err, Result-cases}
use sihkaromicro.Sources.Proto.{unset, meta, chunk, done, get_done, get_chunk}
use sihkaromicro.Sources.Service.{max_file_size}
use sihkaromicro.Sources.Handler.Chunks.{
  Event, message, failure, Loop, allowed_content_type, accept_first, append_chunk, take_chunk,
  receive_loop, receive_chunks, entry,
}

-- The chunks one after the other.
unfoldable pub joined : List (List ℕ) → List ℕ
joined [] = []
joined (c ∷ cs) = c ++ joined cs

-- The chunks, then the signal that the upload is done, then anything.
unfoldable pub sent : List (List ℕ) → List Event → List Event
sent [] rest = message (done true) ∷ rest
sent (c ∷ cs) rest = message (chunk c) ∷ sent cs rest

-- A message of under 2^62 bytes: its size fits an int64 with room for what was read before it.
unfoldable pub IsSmall : Event → Type 0
IsSmall (message (chunk c)) = length c < 2 ^ 62
IsSmall _ = Unit

-- What is accepted: chunks with a first one of at least 512 bytes and of an allowed type, of
-- at most 1 GiB together, closed by the signal.
pub record IsUpload (detect : List ℕ → String) (events : List Event) (bytes : List ℕ)
    (content_type : String) : Type 0 where
  pub first : List ℕ
  pub others : List (List ℕ)
  pub rest : List Event
  pub stream : events ≡ sent (first ∷ others) rest
  pub contents : bytes ≡ joined (first ∷ others)
  pub detected : content_type ≡ detect first
  pub allowed : allowed_content_type content_type ≡ true
  pub enough : 512 ≤ length first
  pub bounded : length bytes ≤ max_file_size

length-append : (xs ys : List ℕ) → length (xs ++ ys) ≡ length xs + length ys
length-append [] ys = omega arith
length-append (x ∷ xs) ys = ground (arith, length-append xs ys)

-- The state after a chunk is kept.
abbrev kept : List ℕ → Loop → Loop
kept c s = record s { total_size = length (s.buf ++ c); buf = s.buf ++ c }

abbrev IsCounted : Loop → Type 0
IsCounted s = (s.total_size ≡ length s.buf) × (length s.buf ≤ max_file_size)

module _ (detect : List ℕ → String) where
  append_chunk-kept :
      (c : List ℕ) (s : Loop)
      → IsCounted s
      → length c < 2 ^ 62
      → length (s.buf ++ c) ≤ max_file_size
      → append_chunk detect c s ≡ ok (kept c s)
  unfolding append_chunk
  append_chunk-kept c s h small fits = ground (arith, length-append s.buf c)

  append_chunk-ok :
      (c : List ℕ) (s s' : Loop)
      → IsCounted s
      → length c < 2 ^ 62
      → append_chunk detect c s ≡ ok s'
      → (length (s.buf ++ c) ≤ max_file_size) × (s' ≡ kept c s)
  unfolding append_chunk
  append_chunk-ok c s s' h small e = ground (arith, length-append s.buf c)

  take_chunk-later :
      (c : List ℕ) (s : Loop)
      → s.first_chunk ≡ false
      → take_chunk detect c s ≡ append_chunk detect c s
  unfolding take_chunk
  take_chunk-later c s h = ground arith

  receive_loop-chunk :
      (c : List ℕ) (events : List Event) (s s' : Loop)
      → take_chunk detect c s ≡ ok s'
      → receive_loop detect (message (chunk c) ∷ events) s ≡ receive_loop detect events s'
  unfolding receive_loop get_done get_chunk
  receive_loop-chunk c events s s' e = ground arith

  receive_loop-chunk_err :
      (c : List ℕ) (events : List Event) (s : Loop) (x : Error)
      → take_chunk detect c s ≡ err x
      → receive_loop detect (message (chunk c) ∷ events) s ≡ err x
  unfolding receive_loop get_done get_chunk
  receive_loop-chunk_err c events s x e = ground arith

  -- What the loop has read, once it is past the first chunk.
  abbrev Continues : List Event → Loop → List ℕ → String → Type 0
  Continues events s bytes content_type =
      (cs : List (List ℕ)) × (rest : List Event) × (events ≡ sent cs rest)
      × (bytes ≡ s.buf ++ joined cs)
      × (content_type ≡ s.content_type)
      × (length bytes ≤ max_file_size)

  loop_sound :
      (events : List Event) (s : Loop) (bytes : List ℕ) (content_type : String)
      → All IsSmall events
      → s.first_chunk ≡ false
      → IsCounted s
      → receive_loop detect events s ≡ ok (bytes, content_type)
      → Continues events s bytes content_type
  unfolding receive_loop get_done get_chunk sent joined IsSmall
  loop_sound [] s bytes ct small h n e = absurd (ground arith)
  loop_sound (failure x ∷ events) s bytes ct small h n e = absurd (ground arith)
  loop_sound (message unset ∷ events) s bytes ct small h n e = absurd (ground arith)
  loop_sound (message (meta m) ∷ events) s bytes ct small h n e = absurd (ground arith)
  loop_sound (message (done false) ∷ events) s bytes ct small h n e = absurd (ground arith)
  loop_sound (message (done true) ∷ events) s bytes ct small h n e =
      ([], events, refl, ground (arith, append_nil s.buf), ground arith, ground arith)
  loop_sound (message (chunk c) ∷ events) s bytes ct (small_c, small) h n e =
      elim (Result-cases (append_chunk detect c s)) [
        | inr (x, refused) ↦
            absurd (ground (arith, take_chunk-later c s h, receive_loop-chunk_err c events s x))
        | inl (s', is_kept) ↦
            let (fits, same) = append_chunk-ok c s s' n small_c is_kept in
            let e' : receive_loop detect events (kept c s) ≡ ok (bytes, ct) =
              ground (arith, take_chunk-later c s h, receive_loop-chunk c events s s') in
            let (cs, rest, stream, contents, kind, bounded) =
              loop_sound events (kept c s) bytes ct small h (refl, fits) e' in
            (
              c ∷ cs,
              rest,
              ap (λ t. message (chunk c) ∷ t) stream,
              contents ∙ append_assoc s.buf c (joined cs),
              kind,
              bounded,
            )
      ]

  loop_complete :
      (cs : List (List ℕ)) (rest : List Event) (s : Loop)
      → s.first_chunk ≡ false
      → IsCounted s
      → 1 ≤ length s.buf
      → length (s.buf ++ joined cs) ≤ max_file_size
      → receive_loop detect (sent cs rest) s ≡ ok (s.buf ++ joined cs, s.content_type)
  unfolding receive_loop get_done get_chunk sent joined
  loop_complete [] rest s h n filled fits = ground (arith, append_nil s.buf)
  loop_complete (c ∷ cs) rest s h n filled fits =
      let assoc = append_assoc s.buf c (joined cs) in
      let outer = length-append (s.buf ++ c) (joined cs) in
      let inner = length-append s.buf c in
      let fits' : length ((s.buf ++ c) ++ joined cs) ≤ max_file_size = rw assoc fits in
      let fits_c : length (s.buf ++ c) ≤ max_file_size = omega arith in
      let keeps = append_chunk-kept c s n (omega arith) fits_c in
      receive_loop-chunk c (sent cs rest) s (kept c s) (take_chunk-later c s h ∙ keeps)
      ∙ loop_complete cs rest (kept c s) h (refl, fits_c) (omega arith) fits'
      ∙ ap (λ t. ok (t, s.content_type)) assoc

  -- The state after an accepted first chunk.
  abbrev begun : List ℕ → Loop
  begun c = record { buf = c; total_size = length c; content_type = detect c; first_chunk = false }

  take_chunk-first :
      (c : List ℕ) (s' : Loop)
      → length c < 2 ^ 62
      → take_chunk detect c entry ≡ ok s'
      → (s' ≡ begun c)
        × (512 ≤ length c)
        × (length c ≤ max_file_size)
        × (allowed_content_type (detect c) ≡ true)
  unfolding take_chunk accept_first append_chunk
  take_chunk-first c s' small e = (ground arith, ground arith, ground arith, ground arith)

  take_chunk-begun :
      (c : List ℕ)
      → 512 ≤ length c
      → length c ≤ max_file_size
      → allowed_content_type (detect c) ≡ true
      → take_chunk detect c entry ≡ ok (begun c)
  unfolding take_chunk accept_first append_chunk
  take_chunk-begun c enough fits allowed = ground arith

  receive_chunks_sound :
      (events : List Event) (bytes : List ℕ) (content_type : String)
      → All IsSmall events
      → receive_chunks detect events ≡ ok (bytes, content_type)
      → IsUpload detect events bytes content_type
  unfolding receive_chunks receive_loop get_done get_chunk sent joined IsSmall
  receive_chunks_sound [] bytes ct small e = absurd (ground arith)
  receive_chunks_sound (failure x ∷ events) bytes ct small e = absurd (ground arith)
  receive_chunks_sound (message unset ∷ events) bytes ct small e = absurd (ground arith)
  receive_chunks_sound (message (meta m) ∷ events) bytes ct small e = absurd (ground arith)
  receive_chunks_sound (message (done false) ∷ events) bytes ct small e = absurd (ground arith)
  receive_chunks_sound (message (done true) ∷ events) bytes ct small e = absurd (ground arith)
  receive_chunks_sound (message (chunk c) ∷ events) bytes ct (small_c, small) e =
      elim (Result-cases (take_chunk detect c entry)) [
        | inr (x, refused) ↦ absurd (ground (arith, receive_loop-chunk_err c events entry x))
        | inl (s', accepted) ↦
            let (same, enough, fits, allowed) = take_chunk-first c s' small_c accepted in
            let e' : receive_loop detect events (begun c) ≡ ok (bytes, ct) =
              ground (arith, receive_loop-chunk c events entry s') in
            let (cs, rest, stream, contents, kind, bounded) =
              loop_sound events (begun c) bytes ct small refl (refl, fits) e' in
            record {
              first = c;
              others = cs;
              rest = rest;
              stream = ap (λ t. message (chunk c) ∷ t) stream;
              contents = contents;
              detected = kind;
              allowed = ap allowed_content_type kind ∙ allowed;
              enough = enough;
              bounded = bounded;
            }
      ]

  pub receive_chunks_complete :
      (events : List Event) (bytes : List ℕ) (content_type : String)
      → IsUpload detect events bytes content_type
      → receive_chunks detect events ≡ ok (bytes, content_type)
  unfolding receive_chunks sent joined
  receive_chunks_complete events bytes ct u =
      let sizes = length-append u.first (joined u.others) in
      let bounded : length (u.first ++ joined u.others) ≤ max_file_size =
        rw (← u.contents) u.bounded in
      let allowed = ap allowed_content_type (sym u.detected) ∙ u.allowed in
      let enough = u.enough in
      ap (λ t. receive_loop detect t entry) u.stream
      ∙ receive_loop-chunk u.first (sent u.others u.rest) entry (begun u.first)
          (take_chunk-begun u.first enough (omega (arith, sizes, bounded)) allowed)
      ∙ loop_complete u.others u.rest (begun u.first) refl (refl, omega (arith, sizes, bounded))
          (omega (arith, enough)) bounded
      ∙ ground (arith, u.contents, u.detected)

  -- Where every message holds under 2^62 bytes, `receive_chunks` gives bytes and a content type
  -- exactly for the streams that are uploads of these bytes: chunks of at most 1 GiB together,
  -- closed by `done`, whose first has at least 512 bytes and is detected as that allowed type.
  pub receive_chunks-IsUpload :
      (events : List Event) (bytes : List ℕ) (content_type : String)
      → All IsSmall events
      → (receive_chunks detect events ≡ ok (bytes, content_type))
        ↔ IsUpload detect events bytes content_type
  receive_chunks-IsUpload events bytes ct small =
      (receive_chunks_sound events bytes ct small, receive_chunks_complete events bytes ct)
