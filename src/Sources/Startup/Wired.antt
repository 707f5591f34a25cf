-- ===== src/Sources/Startup/Wired.antt =====
-- What the service that `main` starts is connected to, by the names of the settings.
use sihkaromicro.Prelude.{◌≡◌, false, String, ◌<>◌, str_eq}
use sihkaromicro.Runtime.Errors.{ok}
use sihkaromicro.Runtime.Split.{split}
use sihkaromicro.Startup.Config as Shared
use sihkaromicro.Startup.Database as GormDb
use sihkaromicro.Startup.Oidc as Oidc
use sihkaromicro.Startup.Oidc.{Provider}
use sihkaromicro.Sources.Repository.{source_repository}
use sihkaromicro.Sources.Infrastructure.{Minio, minio_client, kafka_producer}
use sihkaromicro.Sources.Ports.{ProjectsClient}
use sihkaromicro.Sources.Database.{Database}
use sihkaromicro.Projects.Client.{check_access_over}
use sihkaromicro.Sources.Startup.Settings.{Config}
use sihkaromicro.Sources.Startup.{Libraries, ProjectsStub, App, Machine}

-- The client of the projects service over a stub.
abbrev pub client_over : ProjectsStub → ProjectsClient
client_over stub = record { State = stub.State; check_access = check_access_over stub.call }

-- The connections of an application for the settings of a file and the environment.
pub record IsConnected (lib : Libraries) (getenv : String → String) (file : Config) (db : Database)
    (app : App) : Type 1 where
  pub repo : app.ports.repo ≡ source_repository db
  pub client : Minio
  pub made :
      lib.new_minio
        (getenv "MINIO_ENDPOINT")
        (getenv "MINIO_ACCESS_KEY")
        (getenv "MINIO_SECRET_KEY")
        (str_eq (getenv "MINIO_USE_SSL") "true")
      ≡ ok client
  pub storage : app.ports.storage ≡ minio_client client (getenv "MINIO_BUCKET")
  pub stub : ProjectsStub
  pub joined : lib.new_client (getenv "PROJECTS_URL") ≡ ok stub
  pub projects : app.ports.projects ≡ client_over stub
  pub producer :
      app.ports.producer ≡ kafka_producer (lib.new_writer (split "," (getenv "KAFKA_BROKERS")))
  pub provider : Provider
  pub trusted :
      lib.new_provider (file.keycloak.url <> ("/realms/" <> file.keycloak.realm)) ≡ ok provider
  pub verifier :
      app.verifier
      ≡ provider (record { client_id = file.keycloak.client_id; skip_client_id_check = false })
  pub port : app.port ≡ file.grpc_port

-- These, for a file that viper has read and a database that GORM has opened.
pub record IsWired (lib : Libraries) (M : Machine) (app : App) : Type 1 where
  pub file : Config
  pub read : (s : M.viper.State) × ((M.viper.unmarshal s).0 ≡ ok file)
  pub db : M.gorm.Db
  pub opened : (s : M.gorm.State) × ((M.gorm.open_db file.db.dsn s).0 ≡ ok db)
  pub connected : IsConnected lib M.getenv file (M.database db) app
