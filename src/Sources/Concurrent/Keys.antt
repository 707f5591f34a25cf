-- ===== src/Sources/Concurrent/Keys.antt =====
-- Tests of the rows that belong to requests, and how many rows fail one.
use sihkaromicro.Prelude.{
  ℕ, ℤ, ◌≤◌, ◌≡◌, inl, inr, Bool, true, false, not, ◌&&◌, ◌||◌, String, none, List, [], ◌∷◌, ◌++◌,
  arith, length, select, find, ◌==ℤ◌, str_eq, eq_iff, ==ℤ_iff, Bool-cases,
}
use sihkaromicro.Runtime.Errors.{Result, ok, err}
use sihkaromicro.Sources.Model.{Source}
use sihkaromicro.Sources.Spec.{chosen}
use sihkaromicro.Sources.Ports.{Ports}
use sihkaromicro.Sources.Concurrent.Requests.{Thread, uploading, running}
use sihkaromicro.Sources.Concurrent.{
  Phase, asking, counting, saving, storing, linking, marking, naming, publishing, waiting, dropping,
  deleting, ended, sent_job,
}
use sihkaromicro.Sources.Concurrent.Counting.{length-select_last}

-- A test of the columns that no update writes: id, project and owner.
abbrev pub Key : Type 0
Key = ℤ → ℤ → String → Bool

abbrev pub passes : Key → Source → Bool
passes k r = k r.id r.project_id r.owner_id

abbrev pub either : Key → Key → Key
either k h id project_id owner_id = k id project_id owner_id || h id project_id owner_id

abbrev pub never : Key
never id project_id owner_id = false

abbrev pub row_of : Source → Key
row_of s id project_id owner_id =
    id ==ℤ s.id && (project_id ==ℤ s.project_id && str_eq owner_id s.owner_id)

-- The row of a request: the one it has saved, until it is deleted; in the end the one whose id is
-- returned.
abbrev pub holds : Phase → Key
holds asking = never
holds counting = never
holds saving = never
holds (storing s) = row_of s
holds (linking s _) = row_of s
holds (marking s _) = row_of s
holds (naming s) = row_of s
holds (publishing s _) = row_of s
holds (waiting s _) = row_of s
holds (dropping s _ _) = row_of s
holds (deleting s _) = row_of s
holds (ended (ok res)) = λ id project_id owner_id. id ==ℤ res.source_id
holds (ended (err _)) = never

abbrev pub opposite : Key → Key
opposite k id project_id owner_id = not (k id project_id owner_id)

-- How many rows fail a test.
abbrev pub lost : Key → List Source → ℕ
lost k rows = length (select (λ r. not (passes k r)) rows)

pub lost-wider :
    (h h' : Key) (rows : List Source)
    → ((r : Source) → passes h r ≡ true → passes h' r ≡ true)
    → lost h' rows ≤ lost h rows
unfolding select
lost-wider h h' [] wider = omega arith
lost-wider h h' (r ∷ rows) wider = ground (arith, wider r, lost-wider h h' rows wider)

pub row_of_self : (s : Source) → passes (row_of s) s ≡ true
row_of_self s =
    ground
      (arith, ==ℤ_iff s.id s.id, ==ℤ_iff s.project_id s.project_id, eq_iff s.owner_id s.owner_id)

pub lost-added :
    (k : Key) (s : Source) (rows : List Source)
    → lost (either k (row_of s)) (rows ++ s ∷ []) ≤ lost (either k never) rows
lost-added k s rows =
    let new = row_of_self s in
    let last = length-select_last (λ r. not (passes (either k (row_of s)) r)) rows s in
    let kept = lost-wider (either k never) (either k (row_of s)) rows (λ r h. ground arith) in
    ground arith

pub lost-deleted :
    (k : Key) (s : Source) (rows : List Source)
    → lost k (select (λ r. not (chosen s.id s.project_id s.owner_id r)) rows)
      ≤ lost (either k (row_of s)) rows
unfolding select
lost-deleted k s [] = omega arith
lost-deleted k s (r ∷ rows) = ground (arith, lost-deleted k s rows)

pub lost-missing :
    (k : Key) (s : Source) (rows : List Source)
    → find (chosen s.id s.project_id s.owner_id) rows ≡ none
    → lost k rows ≤ lost (either k (row_of s)) rows
unfolding select find
lost-missing k s [] h = omega arith
lost-missing k s (r ∷ rows) h = elim (Bool-cases (chosen s.id s.project_id s.owner_id r)) [
  | inl here ↦ absurd (ground arith)
  | inr other ↦ ground (arith, lost-missing k s rows)
]

pub lost-sent :
    (k : Key) (s : Source) (job_id : String) (r : Result (Unit {0})) (rows : List Source)
    → lost (either k (holds (sent_job s job_id r))) rows ≤ lost (either k (row_of s)) rows
lost-sent k s job_id (ok u) rows = omega arith
lost-sent k s job_id (err e) rows =
    lost-wider (either k (row_of s))
      (either k (holds (ended (ok (record { source_id = s.id; job_id = "" }))))) rows
      (λ r h. ground arith)

-- The row that a request has saved: only an upload saves one.
abbrev pub holds_row : {E : Ports} → Thread E → Key
holds_row (uploading ctx req p) = holds p
holds_row (running p) = never

-- The row of one of the requests.
unfoldable pub held_by : {E : Ports} → List (Thread E) → Key
held_by [] = never
held_by (t ∷ ts) = either (held_by ts) (holds_row t)

-- The ids of these rows.
unfoldable pub listed : List Source → Key
listed [] = never
listed (x ∷ rows) = either (listed rows) (λ id project_id owner_id. id ==ℤ x.id)
