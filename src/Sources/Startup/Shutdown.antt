-- ===== src/Sources/Startup/Shutdown.antt =====
-- The end of `main` of sources/cmd/sources/main.go, with `Stop` of sources/internal/app/app.go. The
-- server goes on by itself until it is stopped; the server of gRPC is a parameter.
use sihkaromicro.Prelude.{ℕ, ◌≡◌, refl, Bool, true, false, List, [], ◌∷◌, ◌⊎◌, inl, inr, arith}

-- A running server: what it does by itself (accept a call, go on with one, answer), and the state
-- when GracefulStop returns.
pub record Running : Type 1 where
  pub State : Type 0
  pub Move : State → State → Type 0
  pub graceful_stop : State → State
  pub in_flight : State → ℕ
  pub Stopped : State → Type 0

-- GracefulStop accepts no more calls and blocks until all pending ones are finished.
pub record RunningLaws (R : Running) : Type 0 where
  pub graceful_stop-Stopped : (s : R.State) → R.Stopped (R.graceful_stop s)
  pub Move-Stopped : {s t : R.State} → R.Move s t → R.Stopped s → R.Stopped t
  pub Stopped-in_flight : {s : R.State} → R.Stopped s → R.in_flight s ≡ 0

-- The statements of the main goroutine.
pub data Action : Type 0 where
  await_signal stop_server close_producer : Action

-- `Stop` of the application.
unfoldable pub stop : List Action
stop = stop_server ∷ close_producer ∷ []

-- `main` from the wait for a signal on.
unfoldable pub wait_and_stop : List Action
wait_and_stop = await_signal ∷ stop

pub record Service (R : Running) : Type 0 where
  pub server : R.State
  pub producer_closed : Bool

abbrev pub perform : {R : Running} → Action → Service R → Service R
perform await_signal s = s
perform {R} stop_server s = record s { server = R.graceful_stop s.server }
perform close_producer s = record s { producer_closed = true }

-- The service, and what its main goroutine has left to do.
pub data Step (R : Running) : List Action → Service R → List Action → Service R → Type 0 where
  serves :
      (rest : List Action) (closed : Bool) {s t : R.State}
      → R.Move s t
      → Step R rest
          (record { server = s; producer_closed = closed })
          rest
          (record { server = t; producer_closed = closed })
  acts : (a : Action) (rest : List Action) (s : Service R) → Step R (a ∷ rest) s rest (perform a s)

pub data Reach (R : Running) (s : Service R) : List Action → Service R → Type 0 where
  here : Reach R s wait_and_stop s
  later :
      {rest rest' : List Action} {t u : Service R}
      → Reach R s rest t
      → Step R rest t rest' u
      → Reach R s rest' u

-- The producer is not closed before the server is stopped.
unfoldable ordered : List Action → Bool
ordered [] = true
ordered (await_signal ∷ rest) = ordered rest
ordered (stop_server ∷ rest) = true
ordered (close_producer ∷ rest) = false

module _ (R : Running) (L : RunningLaws R) where
  -- Either the producer is open and will stay so until the server is stopped, or it is stopped.
  IsSafe : List Action → Service R → Type 0
  IsSafe rest s = ((s.producer_closed ≡ false) × (ordered rest ≡ true)) ⊎ R.Stopped s.server

  perform-IsSafe :
      (a : Action) (rest : List Action) (s : Service R)
      → IsSafe (a ∷ rest) s
      → IsSafe rest (perform a s)
  unfolding IsSafe ordered
  perform-IsSafe await_signal rest s h = h
  perform-IsSafe stop_server rest s h = inr (L.graceful_stop-Stopped s.server)
  perform-IsSafe close_producer rest s (inl (closed, late)) = absurd (ground arith)
  perform-IsSafe close_producer rest s (inr stopped) = inr stopped

  Step-IsSafe :
      {rest rest' : List Action} {s t : Service R}
      → Step R rest s rest' t
      → IsSafe rest s
      → IsSafe rest' t
  unfolding IsSafe
  Step-IsSafe (acts a rest s) h = perform-IsSafe a rest s h
  Step-IsSafe (serves rest closed m) (inl h) = inl h
  Step-IsSafe (serves rest closed m) (inr h) = inr (L.Move-Stopped m h)

  Reach-IsSafe :
      {s t : Service R} {rest : List Action}
      → s.producer_closed ≡ false
      → Reach R s rest t
      → IsSafe rest t
  unfolding IsSafe ordered wait_and_stop stop
  Reach-IsSafe fresh here = inl (fresh, refl)
  Reach-IsSafe fresh (later r st) = Step-IsSafe st (Reach-IsSafe fresh r)

  -- Over a server whose GracefulStop returns when all its calls are finished: while the service
  -- waits for a signal, stops and ends, whatever the server does in between, the producer is not
  -- closed while a call is in flight.
  pub Reach-in_flight :
      {s t : Service R} {rest : List Action}
      → s.producer_closed ≡ false
      → Reach R s rest t
      → t.producer_closed ≡ true
      → R.in_flight t.server ≡ 0
  unfolding IsSafe
  Reach-in_flight fresh r closed = elim (Reach-IsSafe fresh r) [
    | inl (still_open, _) ↦ absurd (ground arith)
    | inr stopped ↦ L.Stopped-in_flight stopped
  ]
