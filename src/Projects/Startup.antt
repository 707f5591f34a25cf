-- ===== src/Projects/Startup.antt =====
-- How the projects service starts: projects/cmd/projects/main.go, projects/internal/app/app.go,
-- projects/internal/config/config.go and `AutoMigrate` of projects/pkg/database/postgres.go. The end
-- of `main` waits for a signal and stops the server.
use sihkaromicro.Prelude.{true, String, ◌<>◌, List, [], ◌∷◌}
use sihkaromicro.Runtime.Errors.{Error, Result, Outcome, Panic, error_value, runtime_error, message}
use sihkaromicro.Runtime.Calls.{Call, best_effort}
use sihkaromicro.Runtime.Process.{Process, proceed, or_panic, call_or_panic, ◌>>=◌, ◌>>◌}
use sihkaromicro.Startup.Config as Shared
use sihkaromicro.Startup.Config.{Viper}
use sihkaromicro.Startup.Oidc as Oidc
use sihkaromicro.Startup.Oidc.{Provider}
use sihkaromicro.Startup.Database as SharedDatabase
use sihkaromicro.Startup.Database.{Gorm}
use sihkaromicro.Startup.Server as SharedServer
use sihkaromicro.Startup.Server.{GrpcServer}
use sihkaromicro.Sources.Interceptor.{Verifier}
use sihkaromicro.Sources.Startup.Shutdown.{Action, await_signal, stop_server}
use sihkaromicro.Projects.Database.{Database}

abbrev pub DbConf : Type 0
DbConf = Shared.DbConf

abbrev pub KeycloakCfg : Type 0
KeycloakCfg = Shared.KeycloakCfg

pub record Config : Type 0 where
  pub env : String
  pub log_file : String
  pub grpc_port : String
  pub db : DbConf
  pub keycloak : KeycloakCfg

abbrev pub must_load : (viper : Viper Config) → Process viper.State Config
must_load viper = Shared.must_load viper

abbrev pub new_database : (gorm : Gorm) → DbConf → Call gorm.State gorm.Db
new_database gorm = SharedDatabase.new gorm

-- What the server answers with: the verifier of the interceptor, and the database.
pub record App : Type 1 where
  pub verifier : Verifier
  pub database : Database
  pub port : String

-- The libraries: viper, GORM with its migration of the table of projects, and oidc.NewProvider.
pub record Machine : Type 1 where
  pub viper : Viper Config
  pub gorm : Gorm
  pub auto_migrate : gorm.Db → Call gorm.State Unit
  pub database : gorm.Db → Database
  pub new_provider : String → Result Provider

pub record Started (M : Machine) : Type 0 where
  pub settings : M.viper.State
  pub connections : M.gorm.State

module _ (M : Machine) where
  -- The tokens may be for any client.
  unfoldable pub new_auth_interceptor : KeycloakCfg → Result Verifier
  new_auth_interceptor cfg = Oidc.new_auth_interceptor M.new_provider true cfg

  abbrev provider_panic : Error → Panic
  provider_panic e = runtime_error ("failed to create auth interceptor: " <> message e)

  unfoldable pub new_app : Database → Config → Process (Started M) App
  new_app db cfg = do
    verifier ← or_panic (new_auth_interceptor cfg.keycloak) provider_panic
    proceed (record { verifier = verifier; database = db; port = cfg.grpc_port })

  abbrev on_settings : {A : Type 0} → Process M.viper.State A → Process (Started M) A
  on_settings m s = ((m s.settings).0, record s { settings = (m s.settings).1 })

  abbrev on_connections : {A : Type 0} → Process M.gorm.State A → Process (Started M) A
  on_connections m s = ((m s.connections).0, record s { connections = (m s.connections).1 })

  -- `main` up to the goroutine that runs the server. A migration that fails is only logged.
  unfoldable pub main : Process (Started M) App
  main = do
    cfg ← on_settings (must_load M.viper)
    db ← on_connections (call_or_panic (new_database M.gorm cfg.db) error_value)
    on_connections (call_or_panic (best_effort (M.auto_migrate db)) error_value)
    new_app (M.database db) cfg

module _ (server : GrpcServer) where
  abbrev pub run : String → Call server.State Unit
  run = SharedServer.run server

  abbrev pub must_run : String → server.State → Outcome (Unit {0}) × server.State
  must_run = SharedServer.must_run server

  abbrev pub stop : server.State → server.State
  stop = SharedServer.stop server

abbrev pub wait_and_stop : List Action
wait_and_stop = await_signal ∷ stop_server ∷ []
