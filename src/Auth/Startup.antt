-- ===== src/Auth/Startup.antt =====
-- How the auth service starts: auth/cmd/auth/main.go, auth/internal/app/app.go and
-- auth/internal/config/config.go. The end of `main` waits for a signal and stops the server.
use sihkaromicro.Prelude.{String, List, [], ◌∷◌}
use sihkaromicro.Runtime.Errors.{Outcome}
use sihkaromicro.Runtime.Calls.{Call}
use sihkaromicro.Runtime.Process.{Process, proceed, ◌>>=◌}
use sihkaromicro.Startup.Config as Shared
use sihkaromicro.Startup.Config.{Viper}
use sihkaromicro.Startup.Server as SharedServer
use sihkaromicro.Startup.Server.{GrpcServer}
use sihkaromicro.Sources.Startup.Shutdown.{Action, await_signal, stop_server}

abbrev pub KeycloakCfg : Type 0
KeycloakCfg = Shared.KeycloakCfg

pub record Config : Type 0 where
  pub env : String
  pub log_file : String
  pub grpc_port : String
  pub keycloak : KeycloakCfg

abbrev pub must_load : (viper : Viper Config) → Process viper.State Config
must_load viper = Shared.must_load viper

-- The application: the server answers with the handlers for this configuration.
pub record App : Type 0 where
  pub cfg : Config

unfoldable pub new_app : Config → App
new_app cfg = record { cfg = cfg }

module _ (server : GrpcServer) where
  abbrev pub run : String → Call server.State Unit
  run = SharedServer.run server

  abbrev pub must_run : String → server.State → Outcome (Unit {0}) × server.State
  must_run = SharedServer.must_run server

  abbrev pub stop : server.State → server.State
  stop = SharedServer.stop server

-- `main` up to the goroutine that runs the server, and from the wait for a signal on.
unfoldable pub main : (viper : Viper Config) → Process viper.State App
main viper = do cfg ← must_load viper; proceed (new_app cfg)

abbrev pub wait_and_stop : List Action
wait_and_stop = await_signal ∷ stop_server ∷ []
