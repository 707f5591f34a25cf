-- ===== src/Sources/Concurrent/Requests.antt =====
-- Requests of all five kinds that the sources service handles at the same time.
use sihkaromicro.Prelude.{ℤ, String, List, [], ◌∷◌, ◌++◌}
use sihkaromicro.Runtime.Context.{Context}
use sihkaromicro.Sources.Ports.{Ports, World}
use sihkaromicro.Sources.Service.{UploadSourceRequest}
use sihkaromicro.Sources.Concurrent.{Phase, asking, next}
use sihkaromicro.Sources.Concurrent.Programs.{
  Program, stop, call, get_source, list_sources, delete_source, retry_job,
}

pub data Request : Type 0 where
  upload : Context → UploadSourceRequest → Request
  get delete retry : Context → ℤ → ℤ → String → Request
  list : Context → ℤ → String → Request

-- A request on its way, and all requests of the server with the state of the ports.
pub data Thread (E : Ports) : Type 1 where
  uploading : Context → UploadSourceRequest → Phase → Thread E
  running : {A : Type 0} → Program E A → Thread E

pub record System (E : Ports) : Type 1 where
  pub world : World E
  pub threads : List (Thread E)

module _ (E : Ports) where
  unfoldable pub begin : Request → Thread E
  begin (upload ctx req) = uploading ctx req asking
  begin (get ctx id project_id owner_id) = running (get_source E ctx id project_id owner_id)
  begin (delete ctx id project_id owner_id) = running (delete_source E ctx id project_id owner_id)
  begin (retry ctx id project_id owner_id) = running (retry_job E ctx id project_id owner_id)
  begin (list ctx project_id owner_id) = running (list_sources E ctx project_id owner_id)

  -- The next call of a request.
  unfoldable pub advance : Thread E → World E → Thread E × World E
  advance (uploading ctx req p) w = let (p', w') = next E ctx req p w in (uploading ctx req p', w')
  advance (running (stop r)) w = (running (stop r), w)
  advance (running (call m k)) w = (running (k (m w).0), (m w).1)

  unfoldable pub begin_all : List Request → List (Thread E)
  begin_all [] = []
  begin_all (r ∷ rs) = begin r ∷ begin_all rs

  abbrev pub started : List Request → World E → System E
  started rs w = record { world = w; threads = begin_all rs }

-- Any request makes its next call.
pub data Step (E : Ports) : System E → System E → Type 1 where
  turn :
      (before after : List (Thread E)) (t : Thread E) (w : World E)
      → Step E
          (record { world = w; threads = before ++ t ∷ after })
          (record { world = (advance E t w).1; threads = before ++ (advance E t w).0 ∷ after })

pub data Reach (E : Ports) (s : System E) : System E → Type 1 where
  here : Reach E s s
  later : {t u : System E} → Reach E s t → Step E t u → Reach E s u
