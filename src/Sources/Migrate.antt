-- ===== src/Sources/Migrate.antt =====
-- sources/cmd/migrate/main.go, over the package migrate as a parameter. `log.Fatal` ends the program:
-- it is an error with the text that is logged.
use sihkaromicro.Prelude.{ℕ, ℤ, negsuc, Bool, String, ◌<>◌, List, ◌∷◌, str_eq, if◌then◌else◌}
use sihkaromicro.Runtime.Errors.{Error, plain, wrap, Result, ok, err}
use sihkaromicro.Runtime.Calls.{Call, pure, raise, ◌>>◌}

-- A database with its migrations: connecting to a data source, the migrator's calls, and whether an
-- error is ErrNoChange.
pub record Migrator : Type 1 where
  pub State : Type 0
  pub new_source : Call State Unit
  pub connect : String → Call State Unit
  pub up : Call State Unit
  pub steps : ℤ → Call State Unit
  pub version : Call State (ℕ × Bool)
  pub close : State → State
  pub is_no_change : Error → Bool

abbrev fatal_error : {A : Type 0} → String → Result A → Result A
fatal_error text (ok a) = ok a
fatal_error text (err e) = err (wrap text e "")

abbrev or_fatal : {S A : Type 0} → Call S A → String → Call S A
or_fatal m text s = (fatal_error text (m s).0, (m s).1)

module _ (M : Migrator) where
  -- `if err != nil && err != migrate.ErrNoChange`
  abbrev unless_no_change : Result (Unit {0}) → Result (Unit {0})
  unless_no_change (ok _) = ok tt
  unless_no_change (err e) = if M.is_no_change e then ok tt else err e

  abbrev or_no_change : Call M.State (Unit {0}) → Call M.State (Unit {0})
  or_no_change m s = (unless_no_change (m s).0, (m s).1)

  -- The version that is printed is not kept.
  unfoldable pub run_command : String → Call M.State (Unit {0})
  run_command cmd =
      if str_eq cmd "up"
      then or_fatal (or_no_change M.up) "failed to migrate up:"
      else if str_eq cmd "down"
      then or_fatal (or_no_change (M.steps (negsuc 0))) "failed to migrate down:"
      else if str_eq cmd "version"
      then (or_fatal M.version "failed to get version:" >> pure tt)
      else raise (plain ("unknown command: " <> cmd))

  abbrev pub command : List String → String
  command (_ ∷ cmd ∷ _) = cmd
  command _ = "up"

  -- `defer m.Close()`, which log.Fatal skips.
  abbrev close_if_ok : Result (Unit {0}) → M.State → Result (Unit {0}) × M.State
  close_if_ok (ok _) s = (ok tt, M.close s)
  close_if_ok (err e) s = (err e, s)

  abbrev migrate : String → List String → Call M.State (Unit {0})
  migrate dsn args = do
    or_fatal M.new_source "failed to create source:"
    or_fatal (M.connect dsn) "failed to create migrator:"
    λ s. let (r, s') = run_command (command args) s in close_if_ok r s'

  unfoldable pub main : (String → String) → List String → Call M.State (Unit {0})
  main getenv args =
      let dsn = getenv "DB_DSN" in
      if str_eq dsn "" then raise (plain "DB_DSN is required") else migrate dsn args
