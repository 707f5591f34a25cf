-- ===== src/Sources/Startup.antt =====
-- How the sources service starts and stops: sources/cmd/sources/main.go, sources/internal/app/app.go
-- and the constructors that they call. What the libraries construct is a parameter.
pub mod Settings
pub mod Shutdown
pub mod Wired
use sihkaromicro.Prelude.{Bool, false, String, ◌<>◌, List}
use sihkaromicro.Runtime.Errors.{Error, wrap, message, Result, ok, err, Panic, runtime_error}
use sihkaromicro.Runtime.Process.{◌>>=◌, ◌>>◌, Process, proceed, or_panic, or_exit}
use sihkaromicro.Startup.Config.{KeycloakCfg, Viper}
use sihkaromicro.Startup.Oidc as Oidc
use sihkaromicro.Startup.Oidc.{Provider}
use sihkaromicro.Startup.Database.{Gorm}
use sihkaromicro.Startup.Database as GormDb
use sihkaromicro.Sources.Interceptor.{Verifier}
use sihkaromicro.Sources.Infrastructure.{Minio, KafkaWriter, minio_client, kafka_producer}
use sihkaromicro.Sources.Ports.{Ports, StorageService, MessageProducer, ProjectsClient, IdSource}
use sihkaromicro.Sources.Database.{Database}
use sihkaromicro.Sources.Repository.{source_repository}
use sihkaromicro.Projects.Client.{Stub, check_access_over}
use sihkaromicro.Sources.Startup.Settings.{MinioConfig, KafkaConfig, Config, must_load}

-- A stub of the generated client of the projects service, over a connection.
pub record ProjectsStub : Type 1 where
  pub State : Type 0
  pub call : Stub State

-- The constructors of the libraries: minio.New, kafka.Writer, grpc.NewClient with the stub,
-- oidc.NewProvider, and uuid.
pub record Libraries : Type 1 where
  pub new_minio : String → String → String → Bool → Result Minio
  pub new_writer : List String → KafkaWriter
  pub new_client : String → Result ProjectsStub
  pub new_provider : String → Result Provider
  pub uuid : IdSource

module _ (lib : Libraries) where
  abbrev with_bucket : String → Result Minio → Result StorageService
  with_bucket bucket_name (ok client) = ok (minio_client client bucket_name)
  with_bucket bucket_name (err e) = err e

  unfoldable pub new_minio_client : MinioConfig → Result StorageService
  new_minio_client cfg =
      with_bucket cfg.bucket_name
        (lib.new_minio cfg.endpoint cfg.access_key_id cfg.secret_access_key cfg.use_ssl)

  abbrev pub new_kafka_producer : KafkaConfig → MessageProducer
  new_kafka_producer cfg = kafka_producer (lib.new_writer cfg.brokers)

  abbrev over_stub : Result ProjectsStub → Result ProjectsClient
  over_stub (ok stub) =
      ok (record { State = stub.State; check_access = check_access_over stub.call })
  over_stub (err e) = err (wrap "failed to connect to projects service: " e "")

  unfoldable pub new_projects_client : String → Result ProjectsClient
  new_projects_client addr = over_stub (lib.new_client addr)

  -- The tokens have to be for the client of the configuration.
  unfoldable pub new_auth_interceptor : KeycloakCfg → Result Verifier
  new_auth_interceptor cfg = Oidc.new_auth_interceptor lib.new_provider false cfg

-- The server with its chain of interceptors and its service: what a request meets.
pub record App : Type 1 where
  pub verifier : Verifier
  pub ports : Ports
  pub port : String

abbrev panic_text : String → Error → Panic
panic_text text e = runtime_error (text <> message e)

unfoldable pub new_app : {S : Type 0} → Libraries → Config → Database → Process S App
new_app lib cfg db = do
  storage ← or_panic (new_minio_client lib cfg.minio) (panic_text "unable to connect to MinIO: ")
  projects ←
      or_panic (new_projects_client lib cfg.projects_url)
        (panic_text "unable to connect to projects service: ")
  verifier ←
      or_panic (new_auth_interceptor lib cfg.keycloak)
        (panic_text "failed to create auth interceptor: ")
  proceed (record {
    verifier = verifier;
    ports = record {
      repo = source_repository db;
      projects = projects;
      producer = new_kafka_producer lib cfg.kafka;
      storage = storage;
      uuid = lib.uuid;
    };
    port = cfg.grpc_port;
  })

-- What a start of the program works on: the settings, and the database with what GORM makes of it.
pub record Machine : Type 1 where
  pub viper : Viper Config
  pub gorm : Gorm
  pub database : gorm.Db → Database
  pub getenv : String → String

pub record Started (M : Machine) : Type 0 where
  pub settings : M.viper.State
  pub connections : M.gorm.State

module _ (M : Machine) where
  abbrev pub on_settings : {A : Type 0} → Process M.viper.State A → Process (Started M) A
  on_settings m s = ((m s.settings).0, record s { settings = (m s.settings).1 })

  abbrev pub open_database : Config → Process (Started M) M.gorm.Db
  open_database cfg s =
      let (r, t) = GormDb.new M.gorm cfg.db s.connections in
      or_exit r (record s { connections = t })

  -- `main` up to the goroutine that runs the server; Shutdown has the rest.
  unfoldable pub main : Libraries → Process (Started M) App
  main lib = do
    cfg ← on_settings (must_load M.viper M.getenv)
    db ← open_database cfg
    new_app lib cfg (M.database db)
