-- ===== src/Startup/Server.antt =====
-- `Run`, `MustRun` and `Stop` of internal/app/grpc/app.go, which have the same statements in all four
-- services. The server of google.golang.org/grpc and the listener of package net are a parameter.
use sihkaromicro.Prelude.{String, ◌<>◌}
use sihkaromicro.Runtime.Errors.{wrap, Result, ok, err, Outcome, returned, panicked, error_value}
use sihkaromicro.Runtime.Calls.{Call, ◌>>◌}

pub record GrpcServer : Type 1 where
  pub State : Type 0
  pub listen : String → Call State Unit
  pub serve : Call State Unit
  pub graceful_stop : State → State

-- `fmt.Errorf("%s: %w", op, err)`
abbrev at_run : {A : Type 0} → Result A → Result A
at_run (ok a) = ok a
at_run (err e) = err (wrap "grpcapp.Run: " e "")

abbrev or_wrapped : {S A : Type 0} → Call S A → Call S A
or_wrapped m s = (at_run (m s).0, (m s).1)

abbrev or_panicked : Result (Unit {0}) → Outcome (Unit {0})
or_panicked (ok _) = returned (ok tt)
or_panicked (err e) = panicked (error_value e)

module _ (server : GrpcServer) where
  unfoldable pub run : String → Call server.State Unit
  run port = do or_wrapped (server.listen ("0.0.0.0:" <> port)); or_wrapped server.serve

  unfoldable pub must_run : String → server.State → Outcome (Unit {0}) × server.State
  must_run port s = (or_panicked (run port s).0, (run port s).1)

  unfoldable pub stop : server.State → server.State
  stop s = server.graceful_stop s
