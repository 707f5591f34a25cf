-- ===== src/Startup/Config.antt =====
-- What the files internal/config/config.go share. The package viper is a parameter: what it reads
-- from configs/config.yaml and the environment.
use sihkaromicro.Prelude.{ℤ, String, ◌<>◌}
use sihkaromicro.Runtime.Errors.{Error, Panic, runtime_error, message}
use sihkaromicro.Runtime.Calls.{Call}
use sihkaromicro.Runtime.Process.{Process, call_or_panic, ◌>>◌}

pub record DbConf : Type 0 where
  pub dsn : String
  pub max_idle_conns : ℤ
  pub max_open_conns : ℤ
  pub conn_max_lifetime : ℤ

pub record KeycloakCfg : Type 0 where
  pub url : String
  pub realm : String
  pub client_id : String

-- A library that fills a configuration `A`; its settings are part of its state.
pub record Viper (A : Type 0) : Type 1 where
  pub State : Type 0
  pub read_in_config : String → Call State Unit
  pub unmarshal : Call State A

abbrev pub config_panic : Error → Panic
config_panic e = runtime_error ("Error occured when loading configs: " <> message e)

unfoldable pub must_load : {A : Type 0} (viper : Viper A) → Process viper.State A
must_load viper = do
  call_or_panic (viper.read_in_config "configs/config.yaml") config_panic
  call_or_panic viper.unmarshal config_panic
