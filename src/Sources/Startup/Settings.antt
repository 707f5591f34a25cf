-- ===== src/Sources/Startup/Settings.antt =====
-- sources/internal/config/config.go. The packages viper and os are parameters.
use sihkaromicro.Prelude.{◌≡◌, ap, ◌∙◌, Bool, String, List, ◌∷◌, str_eq, All, arith}
use sihkaromicro.Runtime.Split.{split, join, Lacks, split-join}
use sihkaromicro.Runtime.Process.{Process, going, proceed, go_on-eq-going, ◌>>=◌}
use sihkaromicro.Startup.Config as Shared
use sihkaromicro.Startup.Config.{DbConf, KeycloakCfg, Viper}

pub record MinioConfig : Type 0 where
  pub endpoint : String
  pub access_key_id : String
  pub secret_access_key : String
  pub bucket_name : String
  pub use_ssl : Bool

pub record KafkaConfig : Type 0 where
  pub brokers : List String
  pub topic : String

pub record Config : Type 0 where
  pub env : String
  pub log_file : String
  pub grpc_port : String
  pub db : DbConf
  pub keycloak : KeycloakCfg
  pub minio : MinioConfig
  pub kafka : KafkaConfig
  pub projects_url : String

-- What is read from the environment directly.
unfoldable pub with_environment : (String → String) → Config → Config
with_environment getenv cfg = record cfg {
  minio = record {
    endpoint = getenv "MINIO_ENDPOINT";
    access_key_id = getenv "MINIO_ACCESS_KEY";
    secret_access_key = getenv "MINIO_SECRET_KEY";
    bucket_name = getenv "MINIO_BUCKET";
    use_ssl = str_eq (getenv "MINIO_USE_SSL") "true";
  };
  kafka = record { brokers = split "," (getenv "KAFKA_BROKERS"); topic = getenv "KAFKA_TOPIC" };
  projects_url = getenv "PROJECTS_URL";
}

unfoldable pub must_load : (viper : Viper Config) → (String → String) → Process viper.State Config
must_load viper getenv = do cfg ← Shared.must_load viper; proceed (with_environment getenv cfg)

-- If KAFKA_BROKERS is the join of some broker addresses by commas, at least one, none of which has a
-- comma, then a configuration that is loaded has these brokers, whatever the file and the other
-- variables say.
pub must_load-brokers :
    (viper : Viper Config) (getenv : String → String) (s s' : viper.State) (cfg : Config)
    (broker : String) (others : List String)
    → getenv "KAFKA_BROKERS" ≡ join "," (broker ∷ others)
    → All (Lacks ",") (broker ∷ others)
    → must_load viper getenv s ≡ (going cfg, s')
    → cfg.kafka.brokers ≡ broker ∷ others
unfolding must_load with_environment
must_load-brokers viper getenv s s' cfg broker others listed plain loaded =
    let read = Shared.must_load viper s in
    let (file, _, same) = go_on-eq-going read.0 _ read.1 (ap (λ x. x.0) loaded) in
    let brokers : cfg.kafka.brokers ≡ split "," (getenv "KAFKA_BROKERS") = ground arith in
    brokers ∙ ap (split ",") listed ∙ split-join "," broker others plain
