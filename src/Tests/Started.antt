-- ===== src/Tests/Started.antt =====
-- The sources service, started with libraries in memory.
use sihkaromicro.Prelude.{str_eq, ◌&&◌, if◌then◌else◌}
use sihkaromicro.Runtime.Errors.{ok, err, plain}
use sihkaromicro.Sources.Interceptor.{Verifier}
use sihkaromicro.Sources.Infrastructure.{KafkaWriter}
use sihkaromicro.Sources.Repository.{source_repository}
use sihkaromicro.Startup.Config as Shared
use sihkaromicro.Startup.Oidc as Oidc
use sihkaromicro.Startup.Database.{Gorm}
use sihkaromicro.Startup.Database as GormDb
use sihkaromicro.Sources.Startup.Settings.{with_environment}
use sihkaromicro.Sources.Startup.{
  ProjectsStub, Libraries, App, Machine, Started, new_kafka_producer,
}
use sihkaromicro.Tests.Memory.{table, counter}
use sihkaromicro.Tests.Infrastructure.{memory}
use sihkaromicro.Tests.Startup.{file, getenv, empty_config}
use sihkaromicro.Sources.Infrastructure.{minio_client}
use sihkaromicro.Projects.Client.{check_access_over}

abbrev no_one : Verifier
no_one = record {
  Token = Unit {0};
  verify = λ ctx token. err (plain "no token");
  claims = λ token. err (plain "no claims");
}

abbrev writer : KafkaWriter
writer = record { State = Unit {0}; write_messages = λ ctx m s. (ok tt, s) }

abbrev closed_doors : ProjectsStub
closed_doors = record { State = Unit {0}; call = λ ctx req s. (err (plain "unavailable"), s) }

abbrev libraries : Libraries
libraries = record {
  new_minio = λ endpoint access_key secret use_ssl.
      if str_eq endpoint "store:9000" && str_eq access_key "sources-key" && str_eq secret "secret"
      then ok memory
      else err (plain "access denied");
  new_writer = λ brokers. writer;
  new_client =
      λ addr. if str_eq addr "projects:50052" then ok closed_doors else err (plain "no such host");
  new_provider = λ issuer. ok (λ cfg. no_one);
  uuid = counter;
}

abbrev gorm : Gorm
gorm = record {
  State = Unit {0};
  Db = Unit {0};
  Pool = Unit {0};
  open_db = λ dsn s. (ok tt, s);
  get_pool = λ db s. (ok tt, s);
  set_max_idle_conns = λ pool n s. s;
  set_max_open_conns = λ pool n s. s;
  set_conn_max_lifetime = λ pool n s. s;
  ping = λ pool s. (ok tt, s);
}

abbrev machine : Machine
machine = record { viper = file; gorm = gorm; database = λ db. table; getenv = getenv }

abbrev idle : Started machine
idle = record { settings = tt; connections = tt }

abbrev app : App
app = record {
  verifier = no_one;
  ports = record {
    repo = source_repository table;
    projects = record { State = Unit {0}; check_access = check_access_over closed_doors.call };
    producer = new_kafka_producer libraries (with_environment getenv empty_config).kafka;
    storage = minio_client memory "files";
    uuid = counter;
  };
  port = "50051";
}
