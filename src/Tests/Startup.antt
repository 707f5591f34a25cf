-- ===== src/Tests/Startup.antt =====
-- Starting and stopping with libraries in memory.
use sihkaromicro.Prelude.{
  ℕ, suc, pos, ◌≡◌, refl, Bool, true, false, String, ◌<>◌, [], ◌∷◌, str_eq, arith, if◌then◌else◌,
}
use sihkaromicro.Runtime.Errors.{ok, err, plain, wrap, panicked, error_value}
use sihkaromicro.Runtime.Split.{split, join, Lacks}
use sihkaromicro.Startup.Config.{DbConf, KeycloakCfg, Viper}
use sihkaromicro.Startup.Config as Shared
use sihkaromicro.Startup.Server.{GrpcServer, run, must_run}
use sihkaromicro.Sources.Startup.Settings.{Config, with_environment, must_load, must_load-brokers}
use sihkaromicro.Sources.Startup.Shutdown.{
  Running, RunningLaws, await_signal, stop_server, close_producer, stop, wait_and_stop, Service,
  serves, acts, Reach, here, later, Reach-in_flight,
}
use sihkaromicro.Sources.Migrate.{Migrator, run_command}
use sihkaromicro.Sources.Migrate as Migrate

abbrev pub empty_config : Config
empty_config = record {
  env = "dev";
  log_file = "";
  grpc_port = "50051";
  db = record {
    dsn = "";
    max_idle_conns = pos 10;
    max_open_conns = pos 100;
    conn_max_lifetime = pos 0;
  };
  keycloak = record { url = "http://keycloak"; realm = "r"; client_id = "c" };
  minio = record {
    endpoint = "";
    access_key_id = "";
    secret_access_key = "";
    bucket_name = "";
    use_ssl = false;
  };
  kafka = record { brokers = []; topic = "" };
  projects_url = "";
}

abbrev pub file : Viper Config
file = record {
  State = Unit {0};
  read_in_config = λ path s. (ok tt, s);
  unmarshal = λ s. (ok empty_config, s);
}

abbrev pub getenv : String → String
getenv key =
    if str_eq key "KAFKA_BROKERS"
    then "k1,k2"
    else if str_eq key "MINIO_ENDPOINT"
    then "store:9000"
    else if str_eq key "MINIO_ACCESS_KEY"
    then "sources-key"
    else if str_eq key "MINIO_SECRET_KEY"
    then "secret"
    else if str_eq key "MINIO_BUCKET"
    then "files"
    else if str_eq key "PROJECTS_URL"
    then "projects:50052"
    else ""

must_load-brokers_example : (with_environment getenv empty_config).kafka.brokers ≡ "k1" ∷ "k2" ∷ []
unfolding must_load with_environment Shared.must_load join Lacks split
must_load-brokers_example =
    must_load-brokers file getenv tt tt (with_environment getenv empty_config) "k1" ("k2" ∷ []) refl
      (
        ((λ h. omega arith), ((λ h. omega arith), tt)),
        ((((λ h. omega arith), ((λ h. omega arith), tt))), tt),
      )
      refl

-- A server that counts its calls, and takes new ones until it is stopped.
data Busy : ℕ × Bool → ℕ × Bool → Type 0 where
  accept : (n : ℕ) → Busy (n, true) (suc n, true)
  finish : (n : ℕ) (b : Bool) → Busy (suc n, b) (n, b)

abbrev busy : Running
busy = record {
  State = ℕ × Bool;
  Move = Busy;
  graceful_stop = λ s. (0, false);
  in_flight = λ s. s.0;
  Stopped = λ s. s ≡ (0, false);
}

Busy-stopped : (s t : ℕ × Bool) → Busy s t → s ≡ (0, false) → t ≡ (0, false)
Busy-stopped s t (accept n) h = absurd (ground (arith, h))
Busy-stopped s t (finish n b) h = absurd (ground (arith, h))

busy-RunningLaws : RunningLaws busy
busy-RunningLaws = record {
  graceful_stop-Stopped = λ s. refl;
  Move-Stopped = λ {s} {t} m h. Busy-stopped s t m h;
  Stopped-in_flight = λ h. rw h;
}

abbrev fresh : Service busy
fresh = record { server = (0, true); producer_closed = false }

abbrev in_call : Service busy
in_call = record { server = (1, true); producer_closed = false }

abbrev closed : Service busy
closed = record { server = (0, false); producer_closed = true }

-- A call comes in, and the service is stopped.
stopping : Reach busy fresh [] closed
unfolding wait_and_stop stop
stopping =
    later
      (later
        (later (later here (serves wait_and_stop false (accept 0)))
          (acts await_signal stop in_call))
        (acts stop_server (close_producer ∷ []) in_call))
      (acts close_producer [] (record { server = (0, false); producer_closed = false }))

Reach-in_flight_example : closed.server.0 ≡ 0
Reach-in_flight_example =
    Reach-in_flight busy busy-RunningLaws {s = fresh} {t = closed} {rest = []} refl stopping refl

-- A port that is taken.
abbrev taken : GrpcServer
taken = record {
  State = Unit {0};
  listen = λ addr s. (err (plain ("listen tcp " <> (addr <> ": address already in use"))), s);
  serve = λ s. (ok tt, s);
  graceful_stop = λ s. s;
}

must_run-taken :
    (must_run taken "50051" tt).0
    ≡ panicked (
        error_value
          (wrap "grpcapp.Run: " (plain "listen tcp 0.0.0.0:50051: address already in use") ""))
unfolding must_run run
must_run-taken = refl

-- A database at a version, which counts the steps down.
abbrev counting : Migrator
counting = record {
  State = ℕ × ℕ;
  new_source = λ s. (ok tt, s);
  connect = λ dsn s. (ok tt, s);
  up = λ s. (ok tt, (7, s.1));
  steps = λ n s. (ok tt, (s.0, suc s.1));
  version = λ s. (ok (s.0, false), s);
  close = λ s. s;
  is_no_change = λ e. false;
}

migrate_down :
    Migrate.main counting (λ key. "postgres://") ("migrate" ∷ "down" ∷ []) (7, 0) ≡ (ok tt, (7, 1))
unfolding Migrate.main run_command
migrate_down = refl

migrate_no_dsn :
    Migrate.main counting (λ key. "") ("migrate" ∷ []) (0, 0)
    ≡ (err (plain "DB_DSN is required"), (0, 0))
unfolding Migrate.main
migrate_no_dsn = refl
