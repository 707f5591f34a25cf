-- ===== src/Sources/Infrastructure/Laws.antt =====
-- The adapters and the laws of the ports.
use sihkaromicro.Prelude.{
  ℕ, ℤ, ap, refl, ◌∙◌, ◌⊎◌, [], ◌∷◌, ◌++◌, ◌≡◌, ◌&&◌, Bool, true, String, Option, none, some, List,
  arith, str_eq, if◌then◌else◌, eq_iff, inl, inr,
}
use sihkaromicro.Runtime.Errors.{ok, Result-cases}
use sihkaromicro.Runtime.Context.{Context}
use sihkaromicro.Sources.Spec.{ObjectView, StorageLaws, Message, ProducerLaws, if_ok}
use sihkaromicro.Sources.Infrastructure.{
  Minio, KafkaMessage, KafkaWriter, ensure_bucket, minio_client, kafka_producer,
}

-- What a store holds: its buckets, and the objects by bucket and name.
pub record MinioView (S : Type 0) : Type 0 where
  pub has_bucket : S → String → Bool
  pub object : S → String → String → Option (List ℕ)
  pub kept : List ℕ → ℤ → List ℕ

pub record MinioLaws (M : Minio) (V : MinioView M.State) : Type 0 where
  pub bucket_exists_sound :
      (ctx : Context) (bucket : String) (s : M.State) (exists : Bool)
      → (M.bucket_exists ctx bucket s).0 ≡ ok exists
      → V.has_bucket (M.bucket_exists ctx bucket s).1 bucket ≡ exists
  pub make_bucket_sound :
      (ctx : Context) (bucket : String) (s : M.State)
      → (M.make_bucket ctx bucket s).0 ≡ ok tt
      → V.has_bucket (M.make_bucket ctx bucket s).1 bucket ≡ true
  pub object-put_object :
      (ctx : Context) (bucket name : String) (bytes : List ℕ) (size : ℤ) (kind : String)
      (s : M.State) (b key : String)
      → V.object (M.put_object ctx bucket name bytes size kind s).1 b key
        ≡ if_ok
            (M.put_object ctx bucket name bytes size kind s).0
            (λ _.
              if str_eq bucket b && str_eq name key
              then some (V.kept bytes size)
              else V.object s b key)
            (V.object s b key)
  pub object-remove_object :
      (ctx : Context) (bucket name : String) (s : M.State) (b key : String)
      → V.object (M.remove_object ctx bucket name s).1 b key
        ≡ if_ok
            (M.remove_object ctx bucket name s).0
            (λ _. if str_eq bucket b && str_eq name key then none else V.object s b key)
            (V.object s b key)
  pub object-presigned_get_object :
      (ctx : Context) (bucket name : String) (s : M.State) (b key : String)
      → V.object (M.presigned_get_object ctx bucket name s).1 b key ≡ V.object s b key

-- What a writer of Kafka has sent: an error may come after its message was taken.
pub record WriterLaws (W : KafkaWriter) (written : W.State → List KafkaMessage) : Type 0 where
  pub written-write_messages :
      (ctx : Context) (m : KafkaMessage) (s : W.State)
      → (W.write_messages ctx m s).0 ≡ ok tt
      → written (W.write_messages ctx m s).1 ≡ written s ++ m ∷ []
  pub written_at_most :
      (ctx : Context) (m : KafkaMessage) (s : W.State)
      → (written (W.write_messages ctx m s).1 ≡ written s)
        ⊎ (written (W.write_messages ctx m s).1 ≡ written s ++ m ∷ [])

abbrev as_message : KafkaMessage → Message
as_message m = record { topic = m.topic; key = m.key; payload = m.value }

abbrev pub messages : List KafkaMessage → List Message
messages [] = []
messages (m ∷ ms) = as_message m ∷ messages ms

messages-append : (ms ns : List KafkaMessage) → messages (ms ++ ns) ≡ messages ms ++ messages ns
messages-append [] ns = refl
messages-append (m ∷ ms) ns = ap (λ t. as_message m ∷ t) (messages-append ms ns)

module _ (W : KafkaWriter) (written : W.State → List KafkaMessage) (L : WriterLaws W written) where
  -- Over a lawful writer the adapter is a lawful producer.
  pub kafka_producer-ProducerLaws : ProducerLaws (kafka_producer W) (λ s. messages (written s))
  kafka_producer-ProducerLaws = record {
    sent-publish = λ ctx m s done.
        let k : KafkaMessage = record { topic = m.topic; key = m.key; value = m.payload } in
        ap messages (L.written-write_messages ctx k s done) ∙ messages-append (written s) (k ∷ []);
    sent_at_most = λ ctx m s.
        let k : KafkaMessage = record { topic = m.topic; key = m.key; value = m.payload } in
        elim (L.written_at_most ctx k s) [
          | inl none_sent ↦ inl (ap messages none_sent)
          | inr one_sent ↦ inr (ap messages one_sent ∙ messages-append (written s) (k ∷ []))
        ];
  }

-- The objects of one bucket.
abbrev pub in_bucket : {S : Type 0} → MinioView S → String → ObjectView S
in_bucket V bucket = record { object = λ s key. V.object s bucket key; kept = V.kept }

module _ (M : Minio) (V : MinioView M.State) (L : MinioLaws M V) (bucket : String) where
  -- Over a lawful client of MinIO the adapter is a store of the objects in its bucket, with the
  -- laws that the service relies on.
  pub minio_client-StorageLaws : StorageLaws (minio_client M bucket) (in_bucket V bucket)
  minio_client-StorageLaws = record {
    object-upload = λ ctx name bytes size kind s key. ground (
      arith,
      L.object-put_object ctx bucket name bytes size kind s bucket key,
      eq_iff bucket bucket,
    );
    object-delete = λ ctx name s key.
        ground (arith, L.object-remove_object ctx bucket name s bucket key, eq_iff bucket bucket);
    object-presigned_url =
        λ ctx name s key. L.object-presigned_get_object ctx bucket name s bucket key;
  }

  -- Over a lawful client of MinIO the bucket is there once `ensure_bucket` has succeeded.
  pub ensure_bucket-has_bucket :
      (ctx : Context) (s : M.State)
      → (ensure_bucket M bucket ctx s).0 ≡ ok tt
      → V.has_bucket (ensure_bucket M bucket ctx s).1 bucket ≡ true
  unfolding ensure_bucket
  ensure_bucket-has_bucket ctx s done = elim (Result-cases (M.bucket_exists ctx bucket s).0) [
    | inl (exists, asked) ↦ ground (
      arith,
      L.bucket_exists_sound ctx bucket s exists asked,
      L.make_bucket_sound ctx bucket (M.bucket_exists ctx bucket s).1,
    )
    | inr (e, failed) ↦ absurd (ground arith)
  ]
