-- ===== src/Logging/Setup.antt =====
-- `SetupLogger` of pkg/logger/logger.go: the level below which records are dropped, and the handler
-- of the logger. In auth and jobs the switch has no default, so the level is the zero value, Info; in
-- sources and projects it is Debug.
use sihkaromicro.Prelude.{ℤ, pos, String, some, str_eq, if◌then◌else◌}
use sihkaromicro.Runtime.Errors.{Error, message}
use sihkaromicro.Logging.Pretty.{
  Attr, Library, PrettyHandler, new_pretty_handler, level_debug, level_info,
}

-- sources and projects
unfoldable pub level_of : String → ℤ
level_of env =
    if str_eq env "dev" then level_debug else if str_eq env "prod" then level_info else level_debug

-- auth and jobs
unfoldable pub level_or_zero : String → ℤ
level_or_zero env =
    if str_eq env "dev" then level_debug else if str_eq env "prod" then level_info else pos 0

module _ (lib : Library) (new_json_handler : ℤ → lib.Base) where
  -- The base handler drops what is below its level; `SetupLogger` of sources and projects.
  unfoldable pub setup_logger : String → PrettyHandler lib
  setup_logger env = new_pretty_handler lib (new_json_handler (level_of env))

-- `sl.Err`
abbrev pub err_attr : Error → Attr
err_attr e = record { key = "error"; value = some (message e) }
