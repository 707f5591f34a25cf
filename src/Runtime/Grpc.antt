-- ===== src/Runtime/Grpc.antt =====
-- The server of google.golang.org/grpc as the four services build it: a chain of interceptors around
-- the handlers. The interceptors of github.com/grpc-ecosystem/go-grpc-middleware are parameters.
use sihkaromicro.Prelude.{◌≡◌, ap, String, List, [], ◌∷◌}
use sihkaromicro.Runtime.Errors.{Error, Result, err, Outcome, returned, panicked, Panic}
use sihkaromicro.Runtime.Context.{Context}

-- A handler, from a context and a state.
abbrev pub Handler : Type 0 → Type 0 → Type 0
Handler W A = Context → W → Outcome A × W

-- An interceptor is given the full name of the method.
pub record Interceptor (W : Type 0) : Type 1 where
  pub around : {A : Type 0} → String → Handler W A → Handler W A

-- `grpc.ChainUnaryInterceptor` and `grpc.ChainStreamInterceptor`: the first one is the outermost.
unfoldable pub chain : {W A : Type 0} → List (Interceptor W) → String → Handler W A → Handler W A
chain [] method handler = handler
chain (i ∷ is) method handler = i.around method (chain is method handler)

-- The events of a call that are logged.
pub data LogEvent : Type 0 where
  start_call finish_call payload_received payload_sent : LogEvent

-- recovery.UnaryServerInterceptor with a recovery handler, and logging.UnaryServerInterceptor with
-- the events to log. The lines that are logged are a part of the state.
pub record Middleware : Type 1 where
  pub Lines : Type 0
  pub recovery : {W : Type 0} → (Panic → Error) → Interceptor (W × Lines)
  pub logging : {W : Type 0} → List LogEvent → Interceptor (W × Lines)

abbrev pub recover_by : {A : Type 0} → (Panic → Error) → Outcome A → Result A
recover_by f (returned r) = r
recover_by f (panicked p) = err (f p)

-- A recovery makes an error of a panic; logging calls the handler once, in a state with more lines,
-- and passes on what it leaves.
pub record MiddlewareLaws (M : Middleware) : Type 1 where
  pub around-recovery :
      {W A : Type 0} (f : Panic → Error) (method : String) (handler : Handler (W × M.Lines) A)
      (ctx : Context) (s : W × M.Lines)
      → ((M.recovery f).around method handler ctx s).0 ≡ returned (recover_by f (handler ctx s).0)
  pub recovery_state :
      {W A : Type 0} (f : Panic → Error) (method : String) (handler : Handler (W × M.Lines) A)
      (ctx : Context) (s : W × M.Lines)
      → ((M.recovery f).around method handler ctx s).1.0 ≡ (handler ctx s).1.0
  pub around-logging :
      {W A : Type 0} (events : List LogEvent) (method : String) (handler : Handler (W × M.Lines) A)
      (ctx : Context) (w : W) (lines : M.Lines)
      → (before : M.Lines) × (((M.logging events).around method handler ctx (w, lines)).0
          ≡ (handler ctx (w, before)).0)
        × (((M.logging events).around method handler ctx (w, lines)).1.0
            ≡ (handler ctx (w, before)).1.0)

module _ {W L A : Type 0} where
  -- A handler that logs nothing.
  abbrev pub beside : Handler W A → Handler (W × L) A
  beside handler ctx (w, lines) = let (o, w') = handler ctx w in (o, (w', lines))

-- What a client gets, and the state of the service. A panic that is not recovered ends the program.
abbrev pub seen : {W L A : Type 0} → Outcome A × (W × L) → Outcome A × W
seen (o, (w, lines)) = (o, w)

-- The chain of all four services: recovery, logging, and what is inside of them. What is inside may
-- see any lines.
pub chain-recovered :
    (M : Middleware) (L : MiddlewareLaws M) {W A : Type 0} (f : Panic → Error)
    (events : List LogEvent) (inside : List (Interceptor (W × M.Lines))) (method : String)
    (handler : Handler (W × M.Lines) A) (g : Handler W A) (ctx : Context) (w : W) (lines : M.Lines)
    → ((before : M.Lines) → seen (chain inside method handler ctx (w, before)) ≡ g ctx w)
    → seen (chain (M.recovery f ∷ M.logging events ∷ inside) method handler ctx (w, lines))
      ≡ (returned (recover_by f (g ctx w).0), (g ctx w).1)
unfolding chain
chain-recovered M L {W} {A} f events inside method handler g ctx w lines same =
    let logged = (M.logging events).around method (chain inside method handler) in
    let (before, answer, state) =
      L.around-logging events method (chain inside method handler) ctx w lines in
    let one = L.around-recovery f method logged ctx (w, lines) in
    let two = L.recovery_state f method logged ctx (w, lines) in
    rw (one, two, answer, state)
      (ap (λ (x : Outcome A × W). (returned (recover_by f x.0), x.1)) (same before))
