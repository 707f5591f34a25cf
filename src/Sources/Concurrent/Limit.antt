-- ===== src/Sources/Concurrent/Limit.antt =====
-- The limit of rows when uploads run at the same time.
use sihkaromicro.Prelude.{
  ℕ, ℤ, suc, ◌+◌, ◌≤◌, ◌<◌, ◌≡◌, refl, String, List, [], ◌∷◌, ◌++◌, arith, All, ◌⊎◌, inl, ◌==ℤ◌,
  ◌&&◌, str_eq,
}
use sihkaromicro.Sources.Spec.{TableView, RepositoryLaws}
use sihkaromicro.Sources.Ports.{Ports, World}
use sihkaromicro.Sources.Service.{max_sources_per_project}
use sihkaromicro.Sources.Concurrent.Requests.{
  Request, upload, Thread, uploading, running, System, Step, turn, Reach, here, later, begin,
  begin_all, started, advance,
}
use sihkaromicro.Sources.Concurrent.Programs.{stop, call}
use sihkaromicro.Sources.Concurrent.Programs.Mild.{
  IsMild, advance-IsMild, count-advance, All-IsMild, middle-IsMild, begin_all-IsMild,
}
use sihkaromicro.Sources.Concurrent.Counting.{held, about_to_add, held-next}

-- How many requests are uploads.
abbrev pub uploads : List Request → ℕ
uploads [] = 0
uploads (upload ctx req ∷ rs) = suc (uploads rs)
uploads (_ ∷ rs) = uploads rs

abbrev is_upload : {E : Ports} → Thread E → ℕ
is_upload (uploading ctx req p) = 1
is_upload (running p) = 0

unfoldable uploads_of : {E : Ports} → List (Thread E) → ℕ
uploads_of [] = 0
uploads_of (t ∷ ts) = is_upload t + uploads_of ts

uploads_of-middle :
    {E : Ports} (xs ys : List (Thread E)) (t : Thread E)
    → uploads_of (xs ++ t ∷ ys) ≡ is_upload t + uploads_of (xs ++ ys)
unfolding uploads_of
uploads_of-middle [] ys t = refl
uploads_of-middle (x ∷ xs) ys t = ground (arith, uploads_of-middle xs ys t)

uploads_of-begin_all : (E : Ports) (rs : List Request) → uploads_of (begin_all E rs) ≡ uploads rs
unfolding uploads_of begin_all begin
uploads_of-begin_all E [] = refl
uploads_of-begin_all E (r ∷ rs) = ground (arith, uploads_of-begin_all E rs)

module _ (E : Ports) (V : TableView E.repo.State) (L : RepositoryLaws E.repo V) (project_id : ℤ)
    (owner_id : String) where
  abbrev weight : Thread E → ℕ
  weight (uploading ctx req p) = about_to_add E V L project_id owner_id req p
  weight (running p) = 0

  -- The rows that are about to be added.
  unfoldable total : List (Thread E) → ℕ
  total [] = 0
  total (t ∷ ts) = weight t + total ts

  total-middle :
      (xs ys : List (Thread E)) (t : Thread E) → total (xs ++ t ∷ ys) ≡ weight t + total (xs ++ ys)
  unfolding total
  total-middle [] ys t = refl
  total-middle (x ∷ xs) ys t = ground (arith, total-middle xs ys t)

  total-le : (ts : List (Thread E)) → total ts ≤ uploads_of ts
  unfolding total uploads_of
  total-le [] = omega arith
  total-le (t ∷ ts) = ground (arith, total-le ts)

  abbrev pub rows_held : System E → ℕ
  rows_held s = held E V L project_id owner_id s.world.rows

  -- What is held and what is about to be added are less than the limit and the uploads together.
  record IsBounded (n : ℕ) (s : System E) : Type 1 where
    mild : All (IsMild E V) s.threads
    threads : uploads_of s.threads ≡ n
    room : rows_held s + total s.threads < max_sources_per_project + n

  -- One call: what is held and about to be added does not grow, or an upload adds within the limit.
  advance-held :
      (t : Thread E) (w : World E)
      → IsMild E V t
      → let (t', w') = advance E t w in
        (is_upload t' ≡ is_upload t)
        × ((held E V L project_id owner_id w'.rows + weight t'
              ≤ held E V L project_id owner_id w.rows + weight t)
            ⊎ ((is_upload t ≡ 1)
                × (held E V L project_id owner_id w'.rows < max_sources_per_project)
                × (weight t' ≤ 1)))
  unfolding advance
  advance-held (uploading ctx req p) w h =
      (refl, ground (arith, held-next E V L project_id owner_id ctx req p w))
  advance-held (running (stop r)) w h = (refl, inl (omega arith))
  advance-held (running (call m k)) w h = (
    refl,
    let fewer =
          count-advance E V (call m k) w (λ id p o. p ==ℤ project_id && str_eq o owner_id) h in
        inl (omega arith),
  )

  Step-IsBounded : {n : ℕ} {s t : System E} → Step E s t → IsBounded n s → IsBounded n t
  Step-IsBounded {n} (turn before after t w) h =
      let (t', w') = advance E t w in
      let this = middle-IsMild E V before after t h.mild in
      let (kind, one) = advance-held t w this in
      let count = uploads_of-middle before after t in
      let count' = uploads_of-middle before after t' in
      let sum = total-middle before after t in
      let sum' = total-middle before after t' in
      let others = total-le (before ++ after) in
      let threads = h.threads in
      let room = h.room in
      record {
        mild = All-IsMild E V before after t t' h.mild (advance-IsMild E V t w this);
        threads = omega arith;
        room = ground arith;
      }

  Reach-IsBounded : {n : ℕ} {s t : System E} → Reach E s t → IsBounded n s → IsBounded n t
  Reach-IsBounded here h = h
  Reach-IsBounded (later r st) h = Step-IsBounded st (Reach-IsBounded r h)

  total-begin_all : (rs : List Request) → total (begin_all E rs) ≡ 0
  unfolding total begin_all begin
  total-begin_all [] = refl
  total-begin_all (r ∷ rs) = ground (arith, total-begin_all rs)

  -- Over a lawful repository, when requests of the five kinds start together with at most 20 rows of
  -- a project and owner in the table, and at least one of them is an upload, then, in whatever order
  -- their calls come, at no time has the table more than 19 of these rows and one for each upload.
  pub Reach-limit :
      (rs : List Request) (w : World E) {t : System E}
      → Reach E (started E rs w) t
      → 1 ≤ uploads rs
      → held E V L project_id owner_id w.rows ≤ max_sources_per_project
      → rows_held t < max_sources_per_project + uploads rs
  Reach-limit rs w {t} r some_upload few =
      let none_yet = total-begin_all rs in
      let bounded = Reach-IsBounded {n = uploads rs} r (record {
        mild = begin_all-IsMild E V L rs;
        threads = uploads_of-begin_all E rs;
        room = omega arith;
      }) in
      let room = bounded.room in omega arith
