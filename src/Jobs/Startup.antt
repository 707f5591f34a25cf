-- ===== src/Jobs/Startup.antt =====
-- How the jobs service starts: jobs/cmd/jobs/main.go, jobs/internal/app/app.go and
-- jobs/internal/config/config.go. It opens no database. The end of `main` waits for a signal and
-- stops the server.
use sihkaromicro.Prelude.{String, List, [], ◌∷◌}
use sihkaromicro.Runtime.Errors.{Outcome}
use sihkaromicro.Runtime.Calls.{Call}
use sihkaromicro.Runtime.Process.{Process, proceed, ◌>>=◌}
use sihkaromicro.Startup.Config as Shared
use sihkaromicro.Startup.Config.{Viper}
use sihkaromicro.Startup.Database as SharedDatabase
use sihkaromicro.Startup.Database.{Gorm}
use sihkaromicro.Startup.Server as SharedServer
use sihkaromicro.Startup.Server.{GrpcServer}
use sihkaromicro.Sources.Startup.Shutdown.{Action, await_signal, stop_server}

abbrev pub DbConf : Type 0
DbConf = Shared.DbConf

abbrev pub KeycloakCfg : Type 0
KeycloakCfg = Shared.KeycloakCfg

pub record Config : Type 0 where
  pub env : String
  pub log_file : String
  pub grpc_port : String
  pub db : DbConf
  pub keycloak : KeycloakCfg

abbrev pub must_load : (viper : Viper Config) → Process viper.State Config
must_load viper = Shared.must_load viper

abbrev pub new_database : (gorm : Gorm) → DbConf → Call gorm.State gorm.Db
new_database gorm = SharedDatabase.new gorm

-- The application, whose server is in Jobs.Server.
pub record App : Type 0 where
  pub cfg : Config

unfoldable pub new_app : Config → App
new_app cfg = record { cfg = cfg }

module _ (server : GrpcServer) where
  abbrev pub run : String → Call server.State Unit
  run = SharedServer.run server

  abbrev pub must_run : String → server.State → Outcome (Unit {0}) × server.State
  must_run = SharedServer.must_run server

  abbrev pub stop : server.State → server.State
  stop = SharedServer.stop server

-- `main` up to the goroutine that runs the server, and from the wait for a signal on.
unfoldable pub main : (viper : Viper Config) → Process viper.State App
main viper = do cfg ← must_load viper; proceed (new_app cfg)

abbrev pub wait_and_stop : List Action
wait_and_stop = await_signal ∷ stop_server ∷ []
