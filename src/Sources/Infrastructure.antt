-- ===== src/Sources/Infrastructure.antt =====
-- sources/internal/infrastructure: storage/minio.go over the client of MinIO, and
-- broker/producer.go over the writer of Kafka. Both libraries are parameters.
pub mod Laws
pub mod Names
use sihkaromicro.Prelude.{ℕ, ℤ, Bool, String, ◌<>◌, List, if◌then◌else◌}
use sihkaromicro.Runtime.Context.{Context}
use sihkaromicro.Runtime.Calls.{Call, pure, ◌>>=◌, ◌>>◌}
use sihkaromicro.Runtime.Decimal.{show_ℤ}
use sihkaromicro.Sources.Ports.{StorageService, MessageProducer}

-- The client of github.com/minio/minio-go: its methods take a bucket. A presigned url holds an hour.
pub record Minio : Type 1 where
  pub State : Type 0
  pub bucket_exists : Context → String → Call State Bool
  pub make_bucket : Context → String → Call State Unit
  pub put_object : Context → String → String → List ℕ → ℤ → String → Call State Unit
  pub remove_object : Context → String → String → Call State Unit
  pub presigned_get_object : Context → String → String → Call State String

-- `fmt.Sprintf("%s/%d/%s", ownerID, sourceID, fileName)`
unfoldable pub object_name : String → ℤ → String → String
object_name owner_id source_id file_name =
    owner_id <> ("/" <> (show_ℤ source_id <> ("/" <> file_name)))

module _ (client : Minio) (bucket_name : String) where
  unfoldable pub ensure_bucket : Context → Call client.State Unit
  ensure_bucket ctx = do
    exists ← client.bucket_exists ctx bucket_name
    if exists then pure tt else client.make_bucket ctx bucket_name

  -- `MinioClient`
  abbrev pub minio_client : StorageService
  minio_client = record {
    State = client.State;
    upload = λ ctx name reader size content_type.
        client.put_object ctx bucket_name name reader size content_type;
    delete = λ ctx name. client.remove_object ctx bucket_name name;
    object_name = object_name;
    presigned_url = λ ctx name. client.presigned_get_object ctx bucket_name name;
  }

-- A message of github.com/segmentio/kafka-go, and its writer.
pub record KafkaMessage : Type 0 where
  pub topic : String
  pub key : String
  pub value : String

pub record KafkaWriter : Type 1 where
  pub State : Type 0
  pub write_messages : Context → KafkaMessage → Call State Unit

-- `KafkaProducer`
abbrev pub kafka_producer : KafkaWriter → MessageProducer
kafka_producer writer = record {
  State = writer.State;
  publish = λ ctx topic key payload.
      writer.write_messages ctx (record { topic = topic; key = key; value = payload });
}
