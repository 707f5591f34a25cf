-- ===== src/Sources/Service/Upload/Rows.antt =====
-- What an upload does to the table: while it runs the table has one new row, and a failed upload
-- takes the row away again.
use sihkaromicro.Prelude.{ℕ, ℤ, ◌≡◌, refl, String, List, str_eq, Bool-cases, inl, inr, update}
use sihkaromicro.Runtime.Errors.{Result, ok, err}
use sihkaromicro.Runtime.Context.{Context}
use sihkaromicro.Runtime.Calls.{attempting_keeps, deferring_keeps}
use sihkaromicro.Sources.Model.{Source, SourceStatus, type_url, status_uploaded, status_pending}
use sihkaromicro.Sources.Spec.{
  TableView, RepositoryLaws, if_ok, with_status, with_minio_path, has_id,
}
use sihkaromicro.Sources.Rows.{LacksId, IsExtension, KeepsKey, update-IsExtension}
use sihkaromicro.Sources.Ports.{Ports, World, on_rows}
use sihkaromicro.Sources.Service.{UploadSourceRequest, publish_create_job}
use sihkaromicro.Sources.Service.Upload.{submit, store, process_body, published}

with_status-KeepsKey :
    (status : SourceStatus) (job_id : String) (now : ℕ) → KeepsKey (with_status status job_id now)
with_status-KeepsKey status job_id now = record {
  same_id = λ r. refl;
  same_project = λ r. refl;
  same_owner = λ r. refl;
}

with_minio_path-KeepsKey : (path : String) (now : ℕ) → KeepsKey (with_minio_path path now)
with_minio_path-KeepsKey path now = record {
  same_id = λ r. refl;
  same_project = λ r. refl;
  same_owner = λ r. refl;
}

module _ (E : Ports) (V : TableView E.repo.State) (L : RepositoryLaws E.repo V) (base : List Source)
    (source : Source) (fresh : LacksId source.id base) where
  abbrev pub Extends : World E → Type 0
  Extends w = IsExtension source.id source.project_id source.owner_id base (V.rows w.rows)

  if_ok-Extends {ℓ} :
      {A : Type ℓ} (r : Result A) (f : List Source → List Source) (l : List Source)
      → IsExtension source.id source.project_id source.owner_id base l
      → IsExtension source.id source.project_id source.owner_id base (f l)
      → IsExtension source.id source.project_id source.owner_id base (if_ok r (λ _. f l) l)
  if_ok-Extends (ok a) f l e e' = e'
  if_ok-Extends (err x) f l e e' = e

  update_status-Extends :
      (ctx : Context) (id : ℤ) (status : SourceStatus) (job_id : String) (w : World E)
      → id ≡ source.id
      → Extends w
      → Extends (on_rows E (E.repo.update_status ctx id status job_id) w).1
  update_status-Extends ctx id status job_id w same e = rw same (
      rw L.rows-update_status (
        if_ok-Extends (E.repo.update_status ctx source.id status job_id w.rows).0
          (update (has_id source.id) (with_status status job_id (V.now w.rows))) (V.rows w.rows) e
          (update-IsExtension fresh e _ (with_status-KeepsKey status job_id (V.now w.rows)))))

  update_minio_path-Extends :
      (ctx : Context) (path : String) (w : World E)
      → Extends w
      → Extends (on_rows E (E.repo.update_minio_path ctx source.id path) w).1
  update_minio_path-Extends ctx path w e = rw L.rows-update_minio_path (
      if_ok-Extends (E.repo.update_minio_path ctx source.id path w.rows).0
        (update (has_id source.id) (with_minio_path path (V.now w.rows))) (V.rows w.rows) e
        (update-IsExtension fresh e _ (with_minio_path-KeepsKey path (V.now w.rows))))

  published-Extends :
      (ctx : Context) (src : Source) (job_id : String) (r : Result (Unit {0})) (w : World E)
      → src.id ≡ source.id
      → Extends w
      → Extends (published E ctx src job_id r w).1
  published-Extends ctx src job_id (err x) w same e = e
  published-Extends ctx src job_id (ok _) w same e =
      update_status-Extends ctx src.id status_pending job_id w same e

  pub submit-Extends :
      (ctx : Context) (req : UploadSourceRequest) (src : Source) (w : World E)
      → src.id ≡ source.id
      → Extends w
      → Extends (submit E ctx req src w).1
  unfolding submit publish_create_job
  submit-Extends ctx req src w same e =
      attempting_keeps Extends _ _ _ w
        (update_status-Extends ctx src.id status_uploaded "" w same e)
        (λ _ t e'. published-Extends ctx src _ _ _ same e')

  pub store-Extends :
      (ctx : Context) (req : UploadSourceRequest) (w : World E)
      → Extends w
      → Extends (store E ctx req source w).1
  unfolding store
  store-Extends ctx req w e = attempting_keeps Extends _ _ _ w e (λ _ t e'.
      deferring_keeps Extends _ _ t
        (attempting_keeps Extends _ _ _ t (update_minio_path-Extends ctx _ t e')
          (λ _ u e''. submit-Extends ctx req _ u refl e''))
        (λ u e''. e''))

  pub process_body-Extends :
      (ctx : Context) (req : UploadSourceRequest) (w : World E)
      → Extends w
      → Extends (process_body E ctx req source w).1
  process_body-Extends ctx req w e = elim (Bool-cases (str_eq req.kind type_url)) [
    | inl url ↦ rw url (submit-Extends ctx req source w refl e)
    | inr file ↦ rw file (store-Extends ctx req w e)
  ]

module _ (E : Ports) (V : TableView E.repo.State) (L : RepositoryLaws E.repo V) where
  pub save-Extends :
      (ctx : Context) (source r : Source) (s : E.repo.State)
      → (E.repo.save ctx source s).0 ≡ ok r
      → IsExtension r.id r.project_id r.owner_id (V.rows s) (V.rows (E.repo.save ctx source s).1)
  save-Extends ctx source r s saved = record {
    row = r;
    last = rw (L.rows-save, saved) refl;
    row_id = refl;
    row_project = refl;
    row_owner = refl;
  }
