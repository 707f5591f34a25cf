-- ===== src/Sources/Service/Upload/Atomic.antt =====
-- The table after an upload that fails.
use sihkaromicro.Prelude.{
  ℤ, ◌≡◌, ◌≢◌, inl, inr, String, List, [], ◌∷◌, ◌++◌, none, arith, find, eq_iff, ==ℤ_iff,
}
use sihkaromicro.Runtime.Errors.{Error, err, Result-cases}
use sihkaromicro.Runtime.Context.{Context, background}
use sihkaromicro.Runtime.Calls.{deferring_failed}
use sihkaromicro.Sources.Model.{Source}
use sihkaromicro.Sources.Spec.{TableView, RepositoryLaws, chosen}
use sihkaromicro.Sources.Rows.{LacksId, select-IsExtension}
use sihkaromicro.Sources.Ports.{Ports, World, SourceRepository}
use sihkaromicro.Sources.Service.{UploadSourceRequest, check_project_access, check_limits}
use sihkaromicro.Sources.Service.Access.{check_project_access_frame, rows-check_limits}
use sihkaromicro.Sources.Service.Upload.{
  new_source, process, process_body, remove_row, upload_saved, upload_source,
}
use sihkaromicro.Sources.Service.Upload.Results.{process-IsProper}
use sihkaromicro.Sources.Service.Upload.Rows.{Extends, process_body-Extends, save-Extends}

-- Under the background context a deletion fails only where there is nothing to delete.
abbrev pub DeletesWhatIsThere : (R : SourceRepository) → TableView R.State → Type 0
DeletesWhatIsThere R V =
    (id project_id : ℤ) (owner_id : String) (s : R.State) (e : Error)
    → (R.delete background id project_id owner_id s).0 ≡ err e
    → find (chosen id project_id owner_id) (V.rows s) ≡ none

find-IsExtension :
    (id project_id : ℤ) (owner_id : String) (base : List Source) (r : Source)
    → r.id ≡ id
    → r.project_id ≡ project_id
    → r.owner_id ≡ owner_id
    → find (chosen id project_id owner_id) (base ++ r ∷ []) ≢ none
unfolding find
find-IsExtension id project_id owner_id [] r e p o =
    ground (arith, ==ℤ_iff r.id id, ==ℤ_iff r.project_id project_id, eq_iff r.owner_id owner_id)
find-IsExtension id project_id owner_id (x ∷ base) r e p o =
    ground (arith, find-IsExtension id project_id owner_id base r e p o)

module _ (E : Ports) (V : TableView E.repo.State) (L : RepositoryLaws E.repo V)
    (D : DeletesWhatIsThere E.repo V) where
  module _ (base : List Source) (source : Source) (fresh : LacksId source.id base) where
    remove_row_lem :
        (w : World E)
        → Extends E V L base source fresh w
        → V.rows (remove_row E source w).rows ≡ base
    remove_row_lem w e =
        elim (Result-cases
          (E.repo.delete background source.id source.project_id source.owner_id w.rows).0) [
            | inl (u, done) ↦ rw L.rows-delete (rw done (select-IsExtension fresh e))
            | inr (x, bad) ↦ absurd (
                find-IsExtension source.id source.project_id source.owner_id base e.row e.row_id
                  e.row_project e.row_owner
                  (rw e.last at (D source.id source.project_id source.owner_id w.rows x bad)))
          ]

    rows-process :
        (ctx : Context) (req : UploadSourceRequest) (w : World E) (x : Error)
        → Extends E V L base source fresh w
        → (process E ctx req source w).0.result ≡ err x
        → V.rows (process E ctx req source w).1.rows ≡ base
    unfolding process
    rows-process ctx req w x e failed =
        let flag = (process-IsProper E ctx req source w).on_err x failed in
        rw (deferring_failed _ _ w flag) (
          remove_row_lem (process_body E ctx req source w).1
            (process_body-Extends E V L base source fresh ctx req w e))

  saved_upload :
      (ctx : Context) (req : UploadSourceRequest) (w : World E) (x : Error)
      → (upload_saved E ctx req w).0 ≡ err x
      → V.rows (upload_saved E ctx req w).1.rows ≡ V.rows w.rows
  unfolding upload_saved
  saved_upload ctx req w x failed =
      elim (Result-cases (E.repo.save ctx (new_source req) w.rows).0) [
        | inl (r, saved) ↦
            rw (saved, upload_saved)
              (rows-process (V.rows w.rows) r (L.save_fresh ctx _ r w.rows saved) ctx req _ x
                (save-Extends E V L ctx (new_source req) r w.rows saved)
                (rw (saved, upload_saved) at failed))
        | inr (e, unsaved) ↦ ground (arith, L.rows-save ctx (new_source req) w.rows)
      ]

  -- Over a lawful repository in which a deletion under the background context fails only where there
  -- is nothing to delete, an upload that ends in an error, at whatever step, leaves the rows of the
  -- table as they were.
  pub upload_source-atomic :
      (ctx : Context) (req : UploadSourceRequest) (w : World E) (x : Error)
      → (upload_source E ctx req w).0 ≡ err x
      → V.rows (upload_source E ctx req w).1.rows ≡ V.rows w.rows
  unfolding upload_source
  upload_source-atomic ctx req w x failed =
      let w₁ = (check_project_access E ctx req.project_id req.owner_id w).1 in
      let w₂ = (check_limits E ctx req.project_id req.owner_id w₁).1 in
      ground (
        arith,
        check_project_access_frame E ctx req.project_id req.owner_id w,
        rows-check_limits E ctx req.project_id req.owner_id w₁ V L,
        saved_upload ctx req w₂ x,
      )
