-- ===== src/Sources/Infrastructure/Names.antt =====
-- The names of the objects in MinIO, for owners whose ids hold no slash, as the UUIDs of Keycloak.
use sihkaromicro.Prelude.{ℕ, ℤ, ◌≡◌, ◌≢◌, ap, sym, ◌∙◌, String, ◌<>◌, List, ◌∷◌, arith, eq_iff}
use sihkaromicro.Runtime.Context.{Context}
use sihkaromicro.Runtime.Decimal.{show_ℤ}
use sihkaromicro.Runtime.Decimal.Reading.{read_ℤ, read_ℤ-show_ℤ, Lacks-show_ℤ}
use sihkaromicro.Runtime.Split.{split, Lacks, split-append}
use sihkaromicro.Sources.Infrastructure.{Minio, object_name, minio_client}
use sihkaromicro.Sources.Infrastructure.Laws.{MinioView, MinioLaws}

-- The segments of an object name.
pub split-object_name :
    (owner_id : String) (source_id : ℤ) (file_name : String)
    → Lacks "/" owner_id
    → split "/" (object_name owner_id source_id file_name)
      ≡ owner_id ∷ show_ℤ source_id ∷ split "/" file_name
unfolding object_name
split-object_name owner_id source_id file_name plain =
    split-append "/" owner_id (show_ℤ source_id <> ("/" <> file_name)) plain
    ∙ ap (λ rest. owner_id ∷ rest)
        (split-append "/" (show_ℤ source_id) file_name
          (Lacks-show_ℤ "/" source_id (ground arith) (ground arith)))

-- The second segment.
abbrev source_segment : List String → ℤ
source_segment (_ ∷ s ∷ _) = read_ℤ s
source_segment _ = read_ℤ ""

source_of_name :
    (owner_id : String) (source_id : ℤ) (file_name : String)
    → Lacks "/" owner_id
    → source_segment (split "/" (object_name owner_id source_id file_name)) ≡ source_id
source_of_name owner_id source_id file_name plain =
    rw (split-object_name owner_id source_id file_name plain) (read_ℤ-show_ℤ source_id)

-- Sources with different ids have different objects, whatever their owners and files.
pub object_name-apart :
    (owner owner' : String) (i j : ℤ) (file file' : String)
    → Lacks "/" owner
    → Lacks "/" owner'
    → i ≢ j
    → object_name owner i file ≢ object_name owner' j file'
object_name-apart owner owner' i j file file' plain plain' apart same = apart (
    sym (source_of_name owner i file plain)
    ∙ (ap (λ s. source_segment (split "/" s)) same ∙ source_of_name owner' j file' plain'))

-- Over a lawful client of MinIO, and for owners whose ids hold no slash, storing the file of a source
-- and deleting it leaves the file of every source with another id as it is.
pub minio_client-apart :
    (M : Minio) (V : MinioView M.State)
    → MinioLaws M V
    → (bucket owner owner' : String) (i j : ℤ) (file file' : String) → Lacks "/" owner
    → Lacks "/" owner'
    → i ≢ j
    → (ctx : Context) (bytes : List ℕ) (size : ℤ) (kind : String) (s : M.State)
    → let store = minio_client M bucket in
      let own = store.object_name owner i file in
      let other = store.object_name owner' j file' in
      (V.object (store.upload ctx own bytes size kind s).1 bucket other ≡ V.object s bucket other)
      × (V.object (store.delete ctx own s).1 bucket other ≡ V.object s bucket other)
minio_client-apart M V L bucket owner owner' i j file file' plain plain' apart ctx bytes size kind
      s =
    let own = object_name owner i file in
    let other = object_name owner' j file' in
    let differ : own ≢ other = object_name-apart owner owner' i j file file' plain plain' apart in
    (
      ground (
        arith,
        L.object-put_object ctx bucket own bytes size kind s bucket other,
        eq_iff own other,
      ),
      ground (arith, L.object-remove_object ctx bucket own s bucket other, eq_iff own other),
    )
