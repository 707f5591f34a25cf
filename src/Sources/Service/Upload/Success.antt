-- ===== src/Sources/Service/Upload/Success.antt =====
-- The table after an upload that succeeds.
use sihkaromicro.Prelude.{
  ℕ, ℤ, suc, ◌≡◌, ◌<◌, ◌≤◌, ap, ◌∙◌, true, String, List, [], ◌∷◌, ◌++◌, arith, inl, inr, length,
  select, ==ℤ_iff, eq_iff,
}
use sihkaromicro.Runtime.Errors.{ok, Result-cases}
use sihkaromicro.Runtime.Context.{Context}
use sihkaromicro.Runtime.Calls.{and_then-eq-ok, deferring_succeeded}
use sihkaromicro.Sources.Model.{Source}
use sihkaromicro.Sources.Spec.{TableView, RepositoryLaws, owned}
use sihkaromicro.Sources.Rows.{LacksId, IsExtension}
use sihkaromicro.Sources.Ports.{Ports, World}
use sihkaromicro.Sources.Service.{
  UploadSourceRequest, UploadSourceResult, check_project_access, check_limits,
  max_sources_per_project,
}
use sihkaromicro.Sources.Service.Access.{
  check_project_access_frame, check_project_access-eq-ok, rows-check_limits, check_limits-eq-ok,
}
use sihkaromicro.Sources.Service.Upload.{new_source, process, upload_saved, upload_source}
use sihkaromicro.Sources.Service.Upload.Results.{process-IsProper}
use sihkaromicro.Sources.Service.Upload.Rows.{Extends, process_body-Extends, save-Extends}

length-select_new :
    (project_id : ℤ) (owner_id : String) (base : List Source) (r : Source)
    → r.project_id ≡ project_id
    → r.owner_id ≡ owner_id
    → length (select (owned project_id owner_id) (base ++ r ∷ []))
      ≡ suc (length (select (owned project_id owner_id) base))
unfolding select
length-select_new project_id owner_id [] r p o =
    ground (arith, ==ℤ_iff r.project_id project_id, eq_iff r.owner_id owner_id)
length-select_new project_id owner_id (x ∷ base) r p o =
    ground (arith, length-select_new project_id owner_id base r p o)

length-select_extension :
    {id project_id : ℤ} {owner_id : String} {base after : List Source} {n : ℕ}
    → IsExtension id project_id owner_id base after
    → length (select (owned project_id owner_id) base) < n
    → length (select (owned project_id owner_id) after) ≤ n
length-select_extension {project_id} {owner_id} {base} e room =
    rw e.last
      (omega (arith, length-select_new project_id owner_id base e.row e.row_project e.row_owner))

module _ (E : Ports) (V : TableView E.repo.State) (L : RepositoryLaws E.repo V) (ctx : Context)
    (req : UploadSourceRequest) where
  process_added :
      (base : List Source) (r : Source) (w : World E) (res : UploadSourceResult)
      → (fresh : LacksId r.id base) → Extends E V L base r fresh w
      → (process E ctx req r w).0.result ≡ ok res
      → IsExtension res.source_id r.project_id r.owner_id base
          (V.rows (process E ctx req r w).1.rows)
  unfolding process
  process_added base r w res fresh e done =
      let (same, flag) = (process-IsProper E ctx req r w).on_ok res done in
      rw (same, deferring_succeeded _ _ w flag)
        (process_body-Extends E V L base r fresh ctx req w e)

  saved_added :
      (w : World E) (res : UploadSourceResult)
      → (upload_saved E ctx req w).0 ≡ ok res
      → IsExtension res.source_id req.project_id req.owner_id
          (V.rows w.rows)
          (V.rows (upload_saved E ctx req w).1.rows)
  unfolding upload_saved new_source
  saved_added w res done = elim (Result-cases (E.repo.save ctx (new_source req) w.rows).0) [
    | inl (r, saved) ↦
        let stored = (L.save_stored ctx (new_source req) r w.rows saved).same in
        rw (saved, upload_saved)
          (let e =
              process_added (V.rows w.rows) r
                (record w { rows = (E.repo.save ctx (new_source req) w.rows).1 }) res
                (L.save_fresh ctx _ r w.rows saved)
                (save-Extends E V L ctx (new_source req) r w.rows saved)
                (rw (saved, upload_saved) at done) in
            record {
              row = e.row;
              last = e.last;
              row_id = e.row_id;
              row_project = e.row_project ∙ ap (λ (x : Source). x.project_id) stored;
              row_owner = e.row_owner ∙ ap (λ (x : Source). x.owner_id) stored;
            })
    | inr (e, unsaved) ↦ absurd (ground arith)
  ]

  -- Over a lawful repository, an upload that returns a result had the answer true from the projects
  -- service. It adds one row at the end of the table, with the id that it returns and the project
  -- and owner of the request, leaves the other rows as they were, and leaves at most 20 rows of
  -- this project and owner.
  pub upload_source-IsExtension :
      (w : World E) (res : UploadSourceResult)
      → (upload_source E ctx req w).0 ≡ ok res
      → ((E.projects.check_access ctx req.project_id w.peer).0 ≡ ok true)
        × IsExtension res.source_id req.project_id req.owner_id
            (V.rows w.rows)
            (V.rows (upload_source E ctx req w).1.rows)
        × (length (
              select
                (owned req.project_id req.owner_id)
                (V.rows (upload_source E ctx req w).1.rows))
            ≤ max_sources_per_project)
  unfolding upload_source
  upload_source-IsExtension w res done =
      let w₁ = (check_project_access E ctx req.project_id req.owner_id w).1 in
      let w₂ = (check_limits E ctx req.project_id req.owner_id w₁).1 in
      let (_, passed, at₁) =
        and_then-eq-ok (check_project_access E ctx req.project_id req.owner_id w).0 _ w₁ done in
      let (_, below, at₂) =
        and_then-eq-ok (check_limits E ctx req.project_id req.owner_id w₁).0 _ w₂
          (rw at₁ at done) in
      let e = saved_added w₂ res (rw (at₁, at₂) at done) in
      let same : V.rows w₂.rows ≡ V.rows w.rows = ground (
        arith,
        check_project_access_frame E ctx req.project_id req.owner_id w,
        rows-check_limits E ctx req.project_id req.owner_id w₁ V L,
      ) in
      let room : length (select (owned req.project_id req.owner_id) (V.rows w₂.rows))
          < max_sources_per_project =
        ground (
          arith,
          rows-check_limits E ctx req.project_id req.owner_id w₁ V L,
          check_limits-eq-ok E ctx req.project_id req.owner_id w₁ V L below,
        ) in
      rw (at₁, at₂)
        (
          check_project_access-eq-ok E ctx req.project_id req.owner_id w passed,
          rw (← same) e,
          length-select_extension e room,
        )
