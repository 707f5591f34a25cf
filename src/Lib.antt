-- ===== src/Lib.antt =====
-- The services sources, projects, auth and jobs of sihkaromicro: projects, uploads of files and urls
-- into them, the jobs of these, and logins.
--
-- A request enters through the interceptors (sources/internal/interceptor), which verify the token,
-- put the user in the context and turn a panic into a status; a handler (sources/internal/handler)
-- checks it and calls the service (sources/internal/service), which asks the projects service for
-- access, reads and writes the table of sources through the repository
-- (sources/internal/repository), puts files into the object store and sends jobs to Kafka.
--
-- Prelude: numbers, lists and tests that the modules share.
-- Runtime: what the code takes from Go and from the libraries. Errors: sentinels, wrapping and
--   errors.Is, gRPC statuses, panics. Context: metadata and the user id. Calls: explicit passing of
--   a state, early returns, and bodies with a deferred clean-up. Json, Decimal, Text: encoding/json,
--   strconv and strings, as far as they are used. Split: strings.Split. Process: programs that may
--   exit or panic. Grpc: handlers in a chain of interceptors.
-- Sources.Proto: the messages of proto/sources/sources.pb.go. Sources.Model: model/source.go.
-- Sources.Apperr: apperr/*.go. Sources.Events: the two payloads in service/source.go.
-- Sources.Ports: service/ports.go and the interface in repository/source.go. Each port is a state
--   and operations on it, which may fail at any call; a World holds the states of all.
-- Sources.Spec: what the ports promise: a table of rows, objects by name, a log of messages.
-- Sources.Database, Sources.Repository: GORM as a database with laws, and the queries of
--   repository/source.go over it. Sources.Rows: lemmas on rows.
-- Sources.Service: the methods of service/source.go; Service.Upload is UploadSource, whose deferred
--   functions are the clean-ups of `deferring`. Service/* hold its proofs by operation.
-- Sources.Interceptor: interceptor/auth.go and recovery.go. Sources.Server: interceptor/logger.go, and
--   the chain and the registered methods of app/grpc/app.go. Projects.Server, Auth.Server and
--   Jobs.Server: the same of the other services.
-- Sources.Infrastructure: infrastructure/storage/minio.go and broker/producer.go over the clients of
--   MinIO and Kafka. Infrastructure.Names: the names of objects, and what MinIO holds under them.
-- Sources.Handler: handler/sources.go; Handler.Chunks the two loops over a stream.
-- Sources.Concurrent: UploadSource again, one call of a port at a time. Concurrent.Programs: the other
--   four methods as trees of such calls. Concurrent.Requests: requests of all five kinds that run at
--   the same time. Concurrent.Sequential and Programs.Alone relate a request that runs alone to
--   Sources.Service; Turns is on how many calls a request makes, Limit and Orphans on what many
--   requests do to the table.
-- Sources.TestClient: sources/cmd/testclient/main.go. Sources.Migrate: sources/cmd/migrate/main.go.
-- Sources.Startup: sources/internal/app/app.go, sources/cmd/sources/main.go and the constructors of
--   the adapters; Startup.Settings: config/config.go; Startup.Shutdown: the end of the program.
--   Startup.Wired is on what the started service is connected to.
-- Startup: what the services start with alike, in Config, Oidc, Database and Server. Auth.Startup,
--   Projects.Startup, Jobs.Startup: the rest, by service.
-- Logging: Pretty: pkg/logger/handler/slogpretty.go, which all services have a copy of, over the
--   slices of Slices; Setup: logger.go and sl.go. Auth.Logging, Projects.Logging, Jobs.Logging: the
--   copies.
-- Projects: the projects service, which the sources service asks for access. Model: its rows,
--   messages and pages. Database, Repository, Service, Interceptor, Handler: the files
--   projects/internal/{repository,service,interceptor,handler}/*.go. Client: the client
--   sources/internal/infrastructure/clients/projects.go, and the two services connected over a
--   transport that may fail.
-- Auth.Handler: auth/internal/handler/auth.go, over Keycloak as a parameter.
-- Jobs.Interceptor: jobs/internal/interceptor/auth.go, which the chain of the jobs service leaves out.
-- Tests: ports in memory that meet the laws, and runs on them.
--
-- An int64 is an integer, and the running total of an upload keeps its wrap-around at 2^64; ids and
-- sizes are not computed with. A stream is the list of what Recv answers up to io.EOF, so the loops
-- are recursive on it and need no fuel. A time is a number of seconds.
--
-- Decimal divides by ten on fuel n + 1, and a number n has at most that many digits. The offset of a
-- page of projects is a product of two int32 values, which an int holds.
--
-- An upload of Sources.Concurrent ends after at most nine calls, and a program is a finite tree of
-- them; two calls of any requests may come in any order, and a call itself is one step. A slice is an
-- array of a heap with a size and a capacity.
--
-- Not modelled: the calls of the loggers in the services; the libraries of MinIO, Kafka, GORM, OIDC,
-- viper and gRPC, its middleware and its health service, which are parameters; and deadlines. The jobs
-- service implements no operation.
pub mod Prelude
pub mod Runtime
pub mod Sources
pub mod Projects
pub mod Auth
pub mod Jobs
pub mod Logging
pub mod Startup
mod Tests
