-- ===== src/Startup/Database.antt =====
-- `New` of pkg/database/postgres.go, which has the same statements in sources, projects and jobs.
-- GORM and the pool of database/sql are parameters.
use sihkaromicro.Prelude.{ℤ, String}
use sihkaromicro.Runtime.Errors.{wrap, Result, ok, err}
use sihkaromicro.Runtime.Calls.{Call, pure, ◌>>=◌, ◌>>◌}
use sihkaromicro.Startup.Config.{DbConf}

pub record Gorm : Type 1 where
  pub State : Type 0
  pub Db : Type 0
  pub Pool : Type 0
  pub open_db : String → Call State Db
  pub get_pool : Db → Call State Pool
  pub set_max_idle_conns : Pool → ℤ → State → State
  pub set_max_open_conns : Pool → ℤ → State → State
  pub set_conn_max_lifetime : Pool → ℤ → State → State
  pub ping : Pool → Call State Unit

abbrev in_text : {A : Type 0} → String → Result A → Result A
in_text text (ok a) = ok a
in_text text (err e) = err (wrap text e "")

abbrev or_text : {S A : Type 0} → Call S A → String → Call S A
or_text m text s = (in_text text (m s).0, (m s).1)

module _ (gorm : Gorm) where
  abbrev limit_pool : DbConf → gorm.Pool → Call gorm.State (Unit {0})
  limit_pool cfg pool s = (
    ok tt,
    gorm.set_conn_max_lifetime pool cfg.conn_max_lifetime (
        gorm.set_max_open_conns pool cfg.max_open_conns
          (gorm.set_max_idle_conns pool cfg.max_idle_conns s)),
  )

  unfoldable pub new : DbConf → Call gorm.State gorm.Db
  new cfg = do
    db ← or_text (gorm.open_db cfg.dsn) "failed to connect to database: "
    pool ← gorm.get_pool db
    limit_pool cfg pool
    or_text (gorm.ping pool) "failed to ping database: "
    pure db
