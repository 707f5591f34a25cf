-- ===== src/Sources/Service/Reading.antt =====
-- What `GetSource` and `ListSources` return.
use mathlib.Core.List.{Perm}
use sihkaromicro.Prelude.{
  ℤ, ◌≡◌, refl, true, String, List, [], ◌∷◌, map, some, inl, inr, arith, find, select,
}
use sihkaromicro.Runtime.Errors.{ok, Result-cases}
use sihkaromicro.Runtime.Context.{Context}
use sihkaromicro.Sources.Model.{Source}
use sihkaromicro.Sources.Spec.{TableView, RepositoryLaws, chosen, owned}
use sihkaromicro.Sources.Ports.{Ports, World}
use sihkaromicro.Sources.Service.{
  SourceDetail, check_project_access, sign, sign_all, get_source, list_sources,
}

module _ (E : Ports) (ctx : Context) where
  source-sign : (source : Source) (w : World E) → (sign E ctx source w).0.source ≡ source
  unfolding sign
  source-sign source w = ground arith

  rows-sign : (source : Source) (w : World E) → (sign E ctx source w).1.rows ≡ w.rows
  unfolding sign
  rows-sign source w = ground arith

  source-sign_all :
      (sources : List Source) (w : World E)
      → map (λ d. d.source) (sign_all E ctx sources w).0 ≡ sources
  unfolding sign_all
  source-sign_all [] w = refl
  source-sign_all (source ∷ sources) w =
      ground (arith, source-sign source w, source-sign_all sources (sign E ctx source w).1)

  rows-sign_all : (sources : List Source) (w : World E) → (sign_all E ctx sources w).1.rows ≡ w.rows
  unfolding sign_all
  rows-sign_all [] w = refl
  rows-sign_all (source ∷ sources) w =
      ground (arith, rows-sign source w, rows-sign_all sources (sign E ctx source w).1)

  -- The world after the check and the query of a listing.
  abbrev after : ℤ → String → World E → World E
  after project_id owner_id w = record w {
    peer = (E.projects.check_access ctx project_id w.peer).1;
    rows = (E.repo.find_all ctx project_id owner_id w.rows).1;
  }

  module _ (V : TableView E.repo.State) (L : RepositoryLaws E.repo V) where
    -- Over a lawful repository, a source that is returned is the first row of the table with this
    -- id, this project and this owner; the projects service had answered true; and the rows of the
    -- table are as they were.
    pub get_source-owned :
        (id project_id : ℤ) (owner_id : String) (w : World E) (d : SourceDetail)
        → (get_source E ctx id project_id owner_id w).0 ≡ ok d
        → (find (chosen id project_id owner_id) (V.rows w.rows) ≡ some d.source)
          × ((E.projects.check_access ctx project_id w.peer).0 ≡ ok true)
          × (V.rows (get_source E ctx id project_id owner_id w).1.rows ≡ V.rows w.rows)
    unfolding get_source check_project_access sign
    get_source-owned id project_id owner_id w d h =
        elim (Result-cases (E.repo.find ctx id project_id owner_id w.rows).0) [
          | inl (r, found) ↦ (
            ground (arith, L.find_sound ctx id project_id owner_id w.rows r found),
            ground arith,
            ground (arith, L.rows-find ctx id project_id owner_id w.rows),
          )
          | inr (e, missing) ↦ absurd (ground arith)
        ]

    -- Over a lawful repository, the sources that are listed are the rows of the table with this
    -- project and this owner, in some order and each as often; the projects service had answered
    -- true.
    pub list_sources-owned :
        (project_id : ℤ) (owner_id : String) (w : World E) (ds : List SourceDetail)
        → (list_sources E ctx project_id owner_id w).0 ≡ ok ds
        → Perm (map (λ d. d.source) ds) (select (owned project_id owner_id) (V.rows w.rows))
          × ((E.projects.check_access ctx project_id w.peer).0 ≡ ok true)
    unfolding list_sources check_project_access
    list_sources-owned project_id owner_id w ds h =
        elim (Result-cases (E.repo.find_all ctx project_id owner_id w.rows).0) [
          | inl (rs, found) ↦
              let shown : (w' : World E) × (ds ≡ (sign_all E ctx rs w').0) =
                (after project_id owner_id w, ground (arith, found)) in
              (
                rw (shown.1, source-sign_all rs shown.0)
                    (L.find_all_sound ctx project_id owner_id w.rows rs found),
                ground arith,
              )
          | inr (e, missing) ↦ absurd (ground arith)
        ]
