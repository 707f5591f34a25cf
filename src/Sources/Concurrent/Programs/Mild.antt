-- ===== src/Sources/Concurrent/Programs/Mild.antt =====
-- Requests other than uploads add no row, at any point of their way.
use sihkaromicro.Prelude.{◌≤◌, List, [], ◌∷◌, ◌++◌, arith, All}
use sihkaromicro.Sources.Spec.{TableView, RepositoryLaws}
use sihkaromicro.Sources.Ports.{Ports, World}
use sihkaromicro.Sources.Concurrent.Keys.{Key}
use sihkaromicro.Sources.Concurrent.Programs.{Program, stop, call}
use sihkaromicro.Sources.Concurrent.Programs.Quiet.{
  IsQuiet, calls, count, get_source-IsQuiet, list_sources-IsQuiet, delete_source-IsQuiet,
  retry_job-IsQuiet,
}
use sihkaromicro.Sources.Concurrent.Requests.{
  Request, upload, get, delete, retry, list, Thread, uploading, running, begin, begin_all, advance,
}

module _ (E : Ports) (V : TableView E.repo.State) where
  abbrev pub IsMild : Thread E → Type 1
  IsMild (uploading ctx req p) = Unit
  IsMild (running p) = IsQuiet V p

  pub advance-IsMild : (t : Thread E) (w : World E) → IsMild t → IsMild (advance E t w).0
  unfolding advance
  advance-IsMild (uploading ctx req p) w h = tt
  advance-IsMild (running (stop r)) w h = h
  advance-IsMild (running (call m k)) w (calls _ _ quiet rest) = rest (m w).0

  pub count-advance :
      {A : Type 0} (p : Program E A) (w : World E) (k : Key)
      → IsQuiet V p
      → count k (V.rows (advance E (running p) w).1.rows) ≤ count k (V.rows w.rows)
  unfolding advance
  count-advance (stop r) w k h = omega arith
  count-advance (call m rest) w k (calls _ _ quiet _) = quiet k w

  pub All-IsMild :
      (xs ys : List (Thread E)) (t t' : Thread E)
      → All IsMild (xs ++ t ∷ ys)
      → IsMild t'
      → All IsMild (xs ++ t' ∷ ys)
  All-IsMild [] ys t t' (h, hs) h' = (h', hs)
  All-IsMild (x ∷ xs) ys t t' (h, hs) h' = (h, All-IsMild xs ys t t' hs h')

  pub middle-IsMild :
      (xs ys : List (Thread E)) (t : Thread E) → All IsMild (xs ++ t ∷ ys) → IsMild t
  middle-IsMild [] ys t (h, hs) = h
  middle-IsMild (x ∷ xs) ys t (h, hs) = middle-IsMild xs ys t hs

  module _ (L : RepositoryLaws E.repo V) where
    begin-IsMild : (r : Request) → IsMild (begin E r)
    unfolding begin
    begin-IsMild (upload ctx req) = tt
    begin-IsMild (get ctx id project_id owner_id) =
        get_source-IsQuiet E V L ctx id project_id owner_id
    begin-IsMild (delete ctx id project_id owner_id) =
        delete_source-IsQuiet E V L ctx id project_id owner_id
    begin-IsMild (retry ctx id project_id owner_id) =
        retry_job-IsQuiet E V L ctx id project_id owner_id
    begin-IsMild (list ctx project_id owner_id) = list_sources-IsQuiet E V L ctx project_id owner_id

    pub begin_all-IsMild : (rs : List Request) → All IsMild (begin_all E rs)
    unfolding begin_all
    begin_all-IsMild [] = tt
    begin_all-IsMild (r ∷ rs) = (begin-IsMild r, begin_all-IsMild rs)
