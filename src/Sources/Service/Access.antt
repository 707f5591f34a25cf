-- ===== src/Sources/Service/Access.antt =====
-- What the two checks in front of an operation leave as it is.
use sihkaromicro.Prelude.{ℤ, ◌≡◌, ◌<◌, inl, inr, true, String, arith, length, select}
use sihkaromicro.Runtime.Errors.{ok, Result-cases}
use sihkaromicro.Runtime.Context.{Context}
use sihkaromicro.Sources.Ports.{Ports, World}
use sihkaromicro.Sources.Spec.{TableView, RepositoryLaws, owned}
use sihkaromicro.Sources.Service.{check_project_access, check_limits, max_sources_per_project}

module _ (E : Ports) (ctx : Context) (project_id : ℤ) (owner_id : String) (w : World E) where
  pub check_project_access_frame :
      let w' = (check_project_access E ctx project_id owner_id w).1 in
      (w'.rows ≡ w.rows) × (w'.topics ≡ w.topics) × (w'.objects ≡ w.objects) × (w'.ids ≡ w.ids)
  unfolding check_project_access
  check_project_access_frame = ground arith

  pub check_limits_frame :
      let w' = (check_limits E ctx project_id owner_id w).1 in
      (w'.peer ≡ w.peer) × (w'.topics ≡ w.topics) × (w'.objects ≡ w.objects) × (w'.ids ≡ w.ids)
  unfolding check_limits
  check_limits_frame = ground arith

  pub rows-check_limits :
      (V : TableView E.repo.State) (L : RepositoryLaws E.repo V)
      → V.rows (check_limits E ctx project_id owner_id w).1.rows ≡ V.rows w.rows
  unfolding check_limits
  rows-check_limits V L = ground (arith, L.rows-count ctx project_id owner_id w.rows)

  -- The check passes only if the projects service answers true.
  pub check_project_access-eq-ok :
      {u : Unit {0}}
      → (check_project_access E ctx project_id owner_id w).0 ≡ ok u
      → (E.projects.check_access ctx project_id w.peer).0 ≡ ok true
  unfolding check_project_access
  check_project_access-eq-ok h = ground arith

  -- The check of the limit passes only below it.
  pub check_limits-eq-ok :
      (V : TableView E.repo.State) (L : RepositoryLaws E.repo V)
      → {u : Unit {0}} → (check_limits E ctx project_id owner_id w).0 ≡ ok u
      → length (select (owned project_id owner_id) (V.rows w.rows)) < max_sources_per_project
  unfolding check_limits
  check_limits-eq-ok V L h = elim (Result-cases (E.repo.count ctx project_id owner_id w.rows).0) [
    | inl (n, counted) ↦ ground (arith, L.count_sound ctx project_id owner_id w.rows n counted)
    | inr (e, failed) ↦ ground arith
  ]
