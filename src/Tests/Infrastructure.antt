-- ===== src/Tests/Infrastructure.antt =====
-- A MinIO in memory: buckets, and objects by bucket and name.
use sihkaromicro.Prelude.{
  ℕ, pos, [], ◌∷◌, ◌≢◌, ◌≡◌, refl, ◌&&◌, Bool, false, String, Option, none, some, List, str_eq,
  if◌then◌else◌, ◌||◌, arith, eq_iff,
}
use sihkaromicro.Runtime.Errors.{ok}
use sihkaromicro.Runtime.Context.{background}
use sihkaromicro.Runtime.Decimal.{show_ℤ}
use sihkaromicro.Runtime.Split.{split, Lacks}
use sihkaromicro.Sources.Infrastructure.{Minio, object_name, ensure_bucket, minio_client}
use sihkaromicro.Sources.Infrastructure.Names.{minio_client-apart}
use sihkaromicro.Sources.Infrastructure.Laws.{MinioView, MinioLaws}

-- The state is what is there.
pub record Store : Type 0 where
  pub buckets : String → Bool
  pub objects : String → String → Option (List ℕ)

abbrev pub memory : Minio
memory = record {
  State = Store;
  bucket_exists = λ ctx b s. (ok (s.buckets b), s);
  make_bucket = λ ctx b s. (ok tt, record s { buckets = λ x. str_eq b x || s.buckets x });
  put_object = λ ctx b name bytes size kind s. (
    ok tt,
    record s {
      objects = λ x key. if str_eq b x && str_eq name key then some bytes else s.objects x key;
    },
  );
  remove_object = λ ctx b name s. (
    ok tt,
    record s { objects = λ x key. if str_eq b x && str_eq name key then none else s.objects x key },
  );
  presigned_get_object = λ ctx b name s. (ok "https://minio", s);
}

abbrev pub view : MinioView Store
view = record {
  has_bucket = λ s b. s.buckets b;
  object = λ s b key. s.objects b key;
  kept = λ bytes size. bytes;
}

pub laws : MinioLaws memory view
laws = record {
  bucket_exists_sound = λ ctx b s exists h. cc;
  make_bucket_sound = λ ctx b s h. ground (arith, eq_iff b b);
  object-put_object = λ ctx b name bytes size kind s x key. refl;
  object-remove_object = λ ctx b name s x key. refl;
  object-presigned_get_object = λ ctx b name s x key. refl;
}

abbrev empty : Store
empty = record { buckets = λ b. false; objects = λ b key. none }

ensured : (ensure_bucket memory "sources" background empty).0 ≡ ok tt
unfolding ensure_bucket
ensured = refl

-- The second segment of a name is the source id.
segments : split "/" (object_name "ann" (pos 12) "a/b.pdf") ≡ "ann" ∷ "12" ∷ "a" ∷ "b.pdf" ∷ []
unfolding split object_name show_ℤ
segments = refl

-- An owner with a slash could share an object with another one.
shared : object_name "ann/1" (pos 2) "b.pdf" ≡ object_name "ann" (pos 1) "2/b.pdf"
unfolding object_name show_ℤ
shared = refl

plain-ann : Lacks "/" "ann"
unfolding Lacks
plain-ann = (ground arith, (ground arith, (ground arith, tt)))

plain-bob : Lacks "/" "bob"
unfolding Lacks
plain-bob = (ground arith, (ground arith, (ground arith, tt)))

one_apart_two : pos 1 ≢ pos 2
one_apart_two = ground arith

minio_client-apart_example :
    let store = minio_client memory "sources" in
    let ann_a = store.object_name "ann" (pos 1) "a.pdf" in
    let bob_a = store.object_name "bob" (pos 2) "a.pdf" in
    (view.object
        (store.upload background ann_a (1 ∷ []) (pos 1) "application/pdf" empty).1
        "sources"
        bob_a
      ≡ none)
    × (view.object (store.delete background ann_a empty).1 "sources" bob_a ≡ none)
minio_client-apart_example =
    minio_client-apart memory view laws "sources" "ann" "bob" (pos 1) (pos 2) "a.pdf" "a.pdf"
      plain-ann plain-bob one_apart_two background (1 ∷ []) (pos 1) "application/pdf" empty
