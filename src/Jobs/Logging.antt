-- ===== src/Jobs/Logging.antt =====
-- jobs/pkg/logger: handler/slogpretty.go has the statements of the sources service's handler of
-- records, whose definitions are used. The switch of `SetupLogger` has no default: another environment logs from Info on.
use sihkaromicro.Prelude.{ℕ, ℤ, String, List}
use sihkaromicro.Runtime.Errors.{Error}
use sihkaromicro.Logging.Pretty as Pretty
use sihkaromicro.Logging.Pretty.{Attr, Record, Library, Output}
use sihkaromicro.Logging.Setup as Setup
use sihkaromicro.Logging.Setup.{level_or_zero}

abbrev pub PrettyHandler : Library → Type 0
PrettyHandler = Pretty.PrettyHandler

module _ (lib : Library) where
  abbrev pub new_pretty_handler : lib.Base → PrettyHandler lib
  new_pretty_handler = Pretty.new_pretty_handler lib

  abbrev pub handle : PrettyHandler lib → Record → Output → Output
  handle = Pretty.handle lib

  abbrev pub append_attr : String → Attr → String
  append_attr = Pretty.append_attr lib

  abbrev pub with_attrs :
      (ℕ → ℕ) → PrettyHandler lib → List Attr → Output → PrettyHandler lib × Output
  with_attrs = Pretty.with_attrs lib

  abbrev pub with_group : PrettyHandler lib → String → PrettyHandler lib
  with_group = Pretty.with_group lib

  unfoldable pub setup_logger : (ℤ → lib.Base) → String → PrettyHandler lib
  setup_logger new_json_handler env = new_pretty_handler (new_json_handler (level_or_zero env))

abbrev pub err_attr : Error → Attr
err_attr = Setup.err_attr
